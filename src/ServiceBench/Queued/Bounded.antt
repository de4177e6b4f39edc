-- ===== src/ServiceBench/Queued/Bounded.antt =====
-- How often the client thread and the services of psrv/src/srv.cpp can have something to do.
use ros2_pubsub_benchmark.Prelude.{
  ℕ, suc, ◌+◌, ◌≤◌, ◌<◌, ◌≡◌, ◌⊎◌, inl, inr, none, some, Option, ltb, Bool-cases, Option-cases,
  arith,
}
use ros2_pubsub_benchmark.Prelude.Int.{ℤ}
use ros2_pubsub_benchmark.TopicBench.{Topics}
use ros2_pubsub_benchmark.ServiceBench.Nodes.{
  Process, new_process, service_name, client_round, service_turn, sink_service_turn,
}
use ros2_pubsub_benchmark.Effect.{done}
use ros2_pubsub_benchmark.ThriftBench.Sink.{num_relays}
use ros2_pubsub_benchmark.ServiceBench.Steps.{
  Turn, tick, requested, relayed, received, Reachable, started, after,
}
use ros2_pubsub_benchmark.TopicBench.Line.{FifoLaws}
use ros2_pubsub_benchmark.TopicBench.Line.Drains.{Prompt}
use ros2_pubsub_benchmark.ServiceBench.Queued.Progress.{
  Busy, sends, passes, takes, Busy-Turn, to_go, sent, passed, sent-less, client_round-sent,
  passed-less, service_turn-passed, received-less,
}
use ros2_pubsub_benchmark.ServiceBench.Queued.Onward.{Finishes, Stalled, progress, to_go-le}

-- Some turns from the start, so many of them busy.
pub data Run (m : Topics) : ℕ → Process m → Type 0 where
  begun : Run m 0 (new_process m)
  worked : (n : ℕ) (g g' : Process m) → Run m n g → Busy m g g' → Run m (suc n) g'
  went_on : (n : ℕ) (g g' : Process m) → Run m n g → Turn m g g' → Run m n g'

Run-Reachable : (m : Topics) (n : ℕ) (g : Process m) → Run m n g → Reachable m g
Run-Reachable m _ _ begun = started
Run-Reachable m _ _ (worked n g g' r b) = after g g' (Run-Reachable m n g r) (Busy-Turn m g g' b)
Run-Reachable m _ _ (went_on n g g' r t) = after g g' (Run-Reachable m n g r) t

module _ (m : Topics) (k : FifoLaws m) where
  -- A turn of a service has a request, and is busy, or leaves the process as it is.
  sink_service_turn-idle :
      (g g' : Process m) (ack : Option ℤ)
      → sink_service_turn m g ≡ done ack g'
      → (to_go m k g' < to_go m k g) ⊎ ((ack ≡ none) × (g ≡ g'))
  unfolding sink_service_turn
  sink_service_turn-idle g g' ack e =
      elim (Option-cases (m.take (service_name num_relays) g.requests)) [
        | inl idle ↦ let h = rw (idle, sink_service_turn) at e in inr (cc (h), cc (h))
        | inr ((x, rest), taken) ↦ inl (received-less m k g g' x rest ack taken e)
      ]

  service_turn-idle :
      (g g' : Process m) (i : ℕ) (ack : Option ℤ)
      → i < num_relays
      → service_turn m i g ≡ done ack g'
      → (to_go m k g' < to_go m k g) ⊎ ((ack ≡ none) × (g ≡ g'))
  unfolding service_turn
  service_turn-idle g g' i ack within e = elim (Option-cases (m.take (service_name i) g.requests)) [
    | inl idle ↦ let h = rw (idle, service_turn) at e in inr (cc (h), cc (h))
    | inr ((x, rest), taken) ↦
        let same : passed m k g i x rest ≡ g' = cc (e, service_turn-passed m k g i x rest taken) in
        inl (rw (← same) (passed-less m k g i x rest within taken))
  ]

  client_round-idle :
      (g g' : Process m) → client_round m g ≡ done tt g' → (to_go m k g' < to_go m k g) ⊎ (g ≡ g')
  unfolding client_round
  client_round-idle g g' e = elim (Bool-cases (ltb g.round 1000)) [
    | inl going ↦
        let room : g.round < 1000 = ground arith in
        let same : sent m k g ≡ g' = cc (e, client_round-sent m k g room) in
        inl (rw (← same) (sent-less m k g room))
    | inr over ↦ let h = rw over at e in inr (cc (h))
  ]

  idle-le :
      {P : Type 0} (g g' : Process m)
      → (to_go m k g' < to_go m k g) ⊎ (P × (g ≡ g'))
      → to_go m k g' ≤ to_go m k g
  idle-le g g' (inl less) = omega arith
  idle-le g g' (inr (_, same)) = rw same (omega arith)

  Turn-le : (g g' : Process m) → Turn m g g' → to_go m k g' ≤ to_go m k g
  Turn-le _ _ (tick g later on fits) = omega arith
  Turn-le _ _ (requested g g' e) = elim (client_round-idle g g' e) [
    | inl less ↦ omega (arith, less)
    | inr same ↦ rw same (omega arith)
  ]
  Turn-le _ _ (relayed g g' i ack within e) = idle-le g g' (service_turn-idle g g' i ack within e)
  Turn-le _ _ (received g g' ack e) = idle-le g g' (sink_service_turn-idle g g' ack e)

  Busy-lt : (g g' : Process m) → Busy m g g' → to_go m k g' < to_go m k g
  Busy-lt _ _ (sends g g' room e) =
      let same : sent m k g ≡ g' = cc (e, client_round-sent m k g room) in
      rw (← same) (sent-less m k g room)
  Busy-lt _ _ (passes g g' i ack within e) = elim (service_turn-idle g g' i (some ack) within e) [
    | inl less ↦ less
    | inr (nothing, _) ↦ absurd (cc (nothing))
  ]
  Busy-lt _ _ (takes g g' ack e) = elim (sink_service_turn-idle g g' (some ack) e) [
    | inl less ↦ less
    | inr (nothing, _) ↦ absurd (cc (nothing))
  ]

  Run-le : (n : ℕ) (g : Process m) → Run m n g → n + to_go m k g ≤ 22000
  Run-le _ _ begun = omega (arith, to_go-le m k (new_process m) started)
  Run-le _ _ (worked n g g' r b) = omega (arith, Run-le n g r, Busy-lt g g' b)
  Run-le _ _ (went_on n g g' r t) = omega (arith, Run-le n g r, Turn-le g g' t)

  module _ (prompt : Prompt m k) where
    -- If services hand requests out in their order, drop the oldest only when ten wait, and have
    -- none late, then in every run, whatever the order of its turns and whatever it loses, at most
    -- 22000 turns are busy: the client makes a request, or a service has one to hand on. And at its
    -- end the sink service's turn takes the last request, number 999, and ends the process with the
    -- summary of exactly 1000 samples printed, or another turn is busy, or the client has made its
    -- 1000 rounds, nothing is under way, and the sink has fewer than 1000 samples.
    pub Run-bounded :
        (n : ℕ) (g : Process m)
        → Run m n g
        → (n ≤ 22000) × (Finishes m k g ⊎ (((g' : Process m) × Busy m g g') ⊎ Stalled m k g))
    Run-bounded n g r = (
      omega (arith, Run-le n g r),
      elim (progress m k prompt g (Run-Reachable m n g r)) [
        | inl finishes ↦ inl finishes
        | inr (inl nearer) ↦ inr (inl (nearer.next, nearer.turn))
        | inr (inr stalled) ↦ inr (inr stalled)
      ],
    )
