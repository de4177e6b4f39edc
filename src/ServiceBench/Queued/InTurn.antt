-- ===== src/ServiceBench/Queued/InTurn.antt =====
-- The requests under way and the samples, by the numbers of the rounds.
use ros2_pubsub_benchmark.Prelude.{
  ℕ, suc, ◌+◌, ◌<◌, ◌≡◌, refl, ap, ◌∙◌, inl, inr, List, [], ◌∷◌, ◌++◌, append_assoc, append-nil,
  Option, length, ltb, leb, Bool-cases, Option-cases, some, arith,
}
use ros2_pubsub_benchmark.Prelude.Int.{ℤ, pos}
use ros2_pubsub_benchmark.Effect.{Ending, done, threw, exited, undefined, spinning}
use ros2_pubsub_benchmark.ThriftBench.Sink.{SinkHandler, num_relays, nanosec_per_hop, insert_sample}
use ros2_pubsub_benchmark.ThriftBench.Sink.Laws.{finish-lasts}
use ros2_pubsub_benchmark.TopicBench.{Message, Topics}
use ros2_pubsub_benchmark.TopicBench.Line.{FifoLaws}
use ros2_pubsub_benchmark.TopicBench.Line.Rows.{row-same}
use ros2_pubsub_benchmark.ServiceBench.Nodes.{
  Process, new_process, service_name, thread_request, client_round, relay_copy_request,
  service_turn, sink_service, sink_service_turn, in_process,
}
use ros2_pubsub_benchmark.ServiceBench.Steps.{
  Turn, tick, requested, relayed, received, Reachable, started, after,
}
use ros2_pubsub_benchmark.ServiceBench.Queued.{Ascending, requests_at, InTurn}
use ros2_pubsub_benchmark.ServiceBench.Queued.Numbers.{
  Ascending-append, Ascending-replace, Ascending-lower, Ascending-remove,
}
use ros2_pubsub_benchmark.ServiceBench.Queued.Rows.{Changes, send-Changes, pass-Changes, take-row}

pub sink_service-length :
    (nanosec : ℤ) (x : Message) (h h' : SinkHandler) (ack : ℤ)
    → sink_service nanosec x h ≡ done ack h'
    → length h'.samples ≡ suc (length h.samples)
unfolding sink_service insert_sample
sink_service-length nanosec x h h' ack e =
    let hop = nanosec_per_hop nanosec x.nanosec in
    elim (Bool-cases (leb 1000 (suc (length h.samples)))) [
      | inl enough ↦ absurd (finish-lasts ack (insert_sample hop h) h' (rw enough at e))
      | inr few ↦
          let f = rw few at e in let same : insert_sample hop h ≡ h' = cc (f) in rw (← same) refl
    ]

pub in_process-done :
    (m : Topics) (g g' : Process m) (ack : Option ℤ) (o : Ending SinkHandler ℤ)
    → in_process m g o ≡ done ack g'
    → (h' : SinkHandler) × (x : ℤ) × (o ≡ done x h') × (record g { sink = h' } ≡ g')
in_process-done m g g' ack (done x h) e = (h, x, refl, cc (e))
in_process-done m g g' ack (threw x h) e = absurd (cc (e))
in_process-done m g g' ack (exited h) e = absurd (cc (e))
in_process-done m g g' ack (undefined h) e = absurd (cc (e))
in_process-done m g g' ack (spinning h) e = absurd (cc (e))

sent-Ascending :
    {free : Type 0} (n count : ℕ) (x : Message) (was now : List Message)
    → (c : Changes free [] (x ∷ []) was now) → c.behind ≡ []
    → x.msgid ≡ pos count
    → Ascending n count was
    → Ascending n (suc count) now
sent-Ascending n count x was now c last e w =
    let old : was ≡ c.before ++ (c.dropped ++ c.kept) = rw (c.from, last, append-nil) refl in
    let less = Ascending-remove n count c.before c.dropped c.kept (rw old at w) in
    let new : now ≡ (c.before ++ c.kept) ++ x ∷ [] = rw (c.into, last, append_assoc) refl in
    rw new (Ascending-append n count (c.before ++ c.kept) x e less)

-- A request with the number of the one in whose place it comes.
passed-Ascending :
    {free : Type 0} (n count : ℕ) (x y : Message) (was now : List Message)
    → Changes free (x ∷ []) (y ∷ []) was now
    → y.msgid ≡ x.msgid
    → Ascending n count was
    → Ascending n count now
passed-Ascending n count x y was now c e w =
    let less =
      Ascending-remove n count c.before c.dropped (c.kept ++ x ∷ c.behind) (rw c.from at w) in
    let split : c.before ++ (c.kept ++ x ∷ c.behind) ≡ (c.before ++ c.kept) ++ x ∷ c.behind =
      rw append_assoc refl in
    let joined : now ≡ (c.before ++ c.kept) ++ y ∷ c.behind = rw (c.into, append_assoc) refl in
    rw joined (Ascending-replace n count (c.before ++ c.kept) c.behind x y e (rw split at less))

module _ (m : Topics) (k : FifoLaws m) where
  client_round-InTurn :
      (g g' : Process m) → client_round m g ≡ done tt g' → InTurn m k g → InTurn m k g'
  unfolding client_round thread_request
  client_round-InTurn g g' e w = elim (Bool-cases (ltb g.round 1000)) [
    | inr over ↦ let h = rw over at e in let same : g ≡ g' = cc (h) in rw (← same) w
    | inl going ↦
        let x = thread_request g.round (pos g.clock) in
        let s = m.publish (service_name 0) x g.requests in
        let h = rw going at e in
        let same : record g { round = suc g.round; requests = s } ≡ g' = cc (h) in
        let (c, last) = send-Changes m k x g.requests in
        rw (← same) (sent-Ascending _ g.round x _ _ c last refl w)
  ]

  relayed-InTurn :
      (g : Process m) (i : ℕ) (x : Message) (rest : m.State)
      → i < num_relays
      → m.take (service_name i) g.requests ≡ some (x, rest)
      → InTurn m k g
      → InTurn m k
          (record g { requests = m.publish (service_name (suc i)) (relay_copy_request i x) rest })
  unfolding relay_copy_request
  relayed-InTurn g i x rest within taken w =
      let y = relay_copy_request i x in
      passed-Ascending _ g.round x y _ _ (pass-Changes m k i x y g.requests rest within taken) refl
        w

  service_turn-InTurn :
      (g g' : Process m) (i : ℕ) (ack : Option ℤ)
      → i < num_relays
      → service_turn m i g ≡ done ack g'
      → InTurn m k g
      → InTurn m k g'
  unfolding service_turn
  service_turn-InTurn g g' i ack within e w =
      elim (Option-cases (m.take (service_name i) g.requests)) [
        | inl idle ↦
            let h = rw (idle, service_turn) at e in let same : g ≡ g' = cc (h) in rw (← same) w
        | inr ((x, rest), taken) ↦
            let h = rw (taken, service_turn) at e in
            let sent = λ (n : ℕ). record g {
              requests = m.publish (service_name n) (relay_copy_request i x) rest;
            } in
            let plus : suc i ≡ i + 1 = omega arith in
            let last : sent (i + 1) ≡ g' = cc (h) in
            let same : sent (suc i) ≡ g' = ap sent plus ∙ last in
            rw (← same) (relayed-InTurn g i x rest within taken w)
      ]

  sink_service_turn-InTurn :
      (g g' : Process m) (ack : Option ℤ)
      → sink_service_turn m g ≡ done ack g'
      → InTurn m k g
      → InTurn m k g'
  unfolding sink_service_turn
  sink_service_turn-InTurn g g' ack e w =
      elim (Option-cases (m.take (service_name num_relays) g.requests)) [
        | inl idle ↦
            let h = rw (idle, sink_service_turn) at e in let same : g ≡ g' = cc (h) in rw (← same) w
        | inr ((x, rest), taken) ↦
            let (h', y, ends, same) =
              in_process-done m (record g { requests = rest }) g' ack
                (sink_service (pos g.clock) x g.sink) (rw (taken, sink_service_turn) at e) in
            let more = sink_service-length (pos g.clock) x g.sink h' y ends in
            let (a, numbered, low, left) = rw (take-row m k x g.requests rest taken) at w in
            rw (← same, more) (Ascending-lower _ (suc a) g.round _ (omega arith) left)
      ]

  new_process-InTurn : InTurn m k (new_process m)
  new_process-InTurn =
      let e =
        row-same (requests_at m k m.start) (λ j. []) (suc num_relays)
          (λ j h. k.start_waiting (service_name j)) in
      rw e (omega arith)

  Turn-InTurn : (g g' : Process m) → Turn m g g' → InTurn m k g → InTurn m k g'
  Turn-InTurn _ _ (tick g later on fits) w = w
  Turn-InTurn _ _ (requested g g' e) w = client_round-InTurn g g' e w
  Turn-InTurn _ _ (relayed g g' i ack within e) w = service_turn-InTurn g g' i ack within e w
  Turn-InTurn _ _ (received g g' ack e) w = sink_service_turn-InTurn g g' ack e w

  -- If services hand requests out in their order, and drop the oldest only when ten wait, then in
  -- every state that the client thread and the services can reach, the requests under way, from the
  -- sink's back to the first service's, carry rising numbers of rounds that the client has made,
  -- from the number of the sink's samples on: no request overtakes another or is there twice, and
  -- the samples and the requests under way are together no more than the rounds.
  pub Reachable-InTurn : (g : Process m) → Reachable m g → InTurn m k g
  Reachable-InTurn _ started = new_process-InTurn
  Reachable-InTurn _ (after g0 g r s) = Turn-InTurn g0 g s (Reachable-InTurn g0 r)
