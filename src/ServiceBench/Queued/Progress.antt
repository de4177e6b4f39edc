-- ===== src/ServiceBench/Queued/Progress.antt =====
-- What one turn brings the benchmark of psrv/src/srv.cpp nearer to its end.
use ros2_pubsub_benchmark.Prelude.{
  ℕ, suc, ◌+◌, ◌-◌, ◌*◌, ◌≤◌, ◌<◌, ◌≡◌, refl, ap, ◌∙◌, List, [], ◌∷◌, Option, none, some, length,
  ltb, true, arith,
}
use ros2_pubsub_benchmark.Prelude.Int.{ℤ, pos}
use ros2_pubsub_benchmark.Effect.{done}
use ros2_pubsub_benchmark.ThriftBench.Sink.{num_relays}
use ros2_pubsub_benchmark.TopicBench.{Message, Topics}
use ros2_pubsub_benchmark.ServiceBench.Nodes.{
  Process, service_name, thread_request, client_round, relay_copy_request, service_turn,
  sink_service, sink_service_turn,
}
use ros2_pubsub_benchmark.ServiceBench.Steps.{Turn, requested, relayed, received}
use ros2_pubsub_benchmark.ServiceBench.Queued.{requests_at, NothingLost}
use ros2_pubsub_benchmark.ServiceBench.Queued.InTurn.{in_process-done, sink_service-length}
use ros2_pubsub_benchmark.ServiceBench.Queued.Rows.{
  Changes-length, take-others, send-others, length-send, send-Changes, pass-Changes, take-row,
}
use ros2_pubsub_benchmark.TopicBench.Line.{history_depth, FifoLaws}
use ros2_pubsub_benchmark.ServiceBench.Queued.Load.{load, load_taken, load_moved, load_added}

-- A turn that makes a request, or has one to hand on.
pub data Busy (m : Topics) : Process m → Process m → Type 0 where
  sends : (g g' : Process m) → g.round < 1000 → client_round m g ≡ done tt g' → Busy m g g'
  passes :
      (g g' : Process m) (i : ℕ) (ack : ℤ)
      → i < num_relays
      → service_turn m i g ≡ done (some ack) g'
      → Busy m g g'
  takes : (g g' : Process m) (ack : ℤ) → sink_service_turn m g ≡ done (some ack) g' → Busy m g g'

pub Busy-Turn : (m : Topics) (g g' : Process m) → Busy m g g' → Turn m g g'
Busy-Turn m _ _ (sends g g' room e) = requested g g' e
Busy-Turn m _ _ (passes g g' i ack within e) = relayed g g' i (some ack) within e
Busy-Turn m _ _ (takes g g' ack e) = received g g' (some ack) e

module _ (m : Topics) (k : FifoLaws m) where
  abbrev lengths : m.State → ℕ → ℕ
  lengths s i = length (requests_at m k s i)

  -- The hops and the rounds that are still to come.
  abbrev pub to_go : Process m → ℕ
  to_go g = load (suc num_relays) (lengths g.requests) + (1000 - g.round) * 22

  -- A busy turn, with fewer of them left, that loses no request if none has been lost.
  pub record Nearer (g : Process m) : Type 0 where
    pub next : Process m
    pub turn : Busy m g next
    pub less : to_go next < to_go g
    pub keeps : NothingLost m k g → NothingLost m k next

  -- The states behind a round of the client and behind a relay service's turn.
  abbrev pub sent : Process m → Process m
  sent g = record g {
    round = suc g.round;
    requests = m.publish (service_name 0) (thread_request g.round (pos g.clock)) g.requests;
  }

  abbrev pub passed : Process m → ℕ → Message → m.State → Process m
  passed g i x rest = record g {
    requests = m.publish (service_name (suc i)) (relay_copy_request i x) rest;
  }

  pub sent-less : (g : Process m) → g.round < 1000 → to_go (sent g) < to_go g
  sent-less g room =
      let x = thread_request g.round (pos g.clock) in
      let added =
        load_added (lengths g.requests) (lengths (sent g).requests) (suc num_relays)
          (length-send m k (service_name 0) x g.requests)
          (λ j differ.
            ap (λ (xs : List Message). length xs) (send-others m k 0 j x g.requests differ)) in
      omega (arith, added)

  pub client_round-sent : (g : Process m) → g.round < 1000 → client_round m g ≡ done tt (sent g)
  unfolding client_round
  client_round-sent g room = let test : ltb g.round 1000 ≡ true = ground arith in rw test refl

  pub request-Nearer :
      (g : Process m)
      → g.round < 1000
      → length (requests_at m k g.requests 0) < history_depth
      → Nearer g
  request-Nearer g room free = record {
    next = sent g;
    turn = sends g (sent g) room (client_round-sent g room);
    less = sent-less g room;
    keeps = λ h.
        let x = thread_request g.round (pos g.clock) in
        omega (arith, h, Changes-length [] (x ∷ []) _ _ (send-Changes m k x g.requests).0 free);
  }

  pub passed-less :
      (g : Process m) (i : ℕ) (x : Message) (rest : m.State)
      → i < num_relays
      → m.take (service_name i) g.requests ≡ some (x, rest)
      → to_go (passed g i x rest) < to_go g
  passed-less g i x rest within taken =
      let y = relay_copy_request i x in
      let s = m.publish (service_name (suc i)) y rest in
      let front = k.take_waiting (service_name i) x g.requests rest taken in
      let out : lengths g.requests i ≡ suc (lengths s i) =
        ap (λ (xs : List Message). length xs) front
        ∙ ap (λ (xs : List Message). suc (length xs))
            (send-others m k (suc i) i y rest (λ z. absurd (omega (arith, z)))) in
      let there =
        ap (λ (xs : List Message). length xs)
          (take-others m k i (suc i) x g.requests rest taken (λ z. absurd (omega (arith, z)))) in
      let into : lengths s (suc i) ≤ suc (lengths g.requests (suc i)) =
        omega (arith, there, length-send m k (service_name (suc i)) y rest) in
      let moved =
        load_moved (lengths g.requests) (lengths s) (suc num_relays) i (omega arith) out into
          (λ j d d'.
            ap (λ (xs : List Message). length xs)
              (take-others m k i j x g.requests rest taken d
                ∙ send-others m k (suc i) j y rest d')) in
      omega (arith, moved)

  pub service_turn-passed :
      (g : Process m) (i : ℕ) (x : Message) (rest : m.State)
      → m.take (service_name i) g.requests ≡ some (x, rest)
      → service_turn m i g ≡ done (some x.msgid) (passed g i x rest)
  unfolding service_turn
  service_turn-passed g i x rest taken =
      let plus : i + 1 ≡ suc i = omega arith in
      let sent_to = λ (n : ℕ). record g {
        requests = m.publish (service_name n) (relay_copy_request i x) rest;
      } in
      rw (taken, service_turn) (ap (λ n. done (some x.msgid) (sent_to n)) plus)

  pub relay-Nearer :
      (g : Process m) (i : ℕ) (x : Message) (rest : m.State)
      → i < num_relays
      → m.take (service_name i) g.requests ≡ some (x, rest)
      → length (requests_at m k g.requests (suc i)) < history_depth
      → Nearer g
  relay-Nearer g i x rest within taken free = record {
    next = passed g i x rest;
    turn = passes g (passed g i x rest) i x.msgid within (service_turn-passed g i x rest taken);
    less = passed-less g i x rest within taken;
    keeps = λ h.
        let y = relay_copy_request i x in
        omega (
          arith,
          h,
          Changes-length (x ∷ []) (y ∷ []) _ _ (pass-Changes m k i x y g.requests rest within taken)
              free,
        );
  }

  pub received-less :
      (g g' : Process m) (x : Message) (rest : m.State) (ack : Option ℤ)
      → m.take (service_name num_relays) g.requests ≡ some (x, rest)
      → sink_service_turn m g ≡ done ack g'
      → to_go g' < to_go g
  unfolding sink_service_turn
  received-less g g' x rest ack taken e =
      let (h', y, ends, same) =
        in_process-done m (record g { requests = rest }) g' ack
          (sink_service (pos g.clock) x g.sink) (rw (taken, sink_service_turn) at e) in
      let front = k.take_waiting (service_name num_relays) x g.requests rest taken in
      let fewer =
        load_taken (lengths g.requests) (lengths rest) num_relays
          (ap (λ (xs : List Message). length xs) front)
          (λ j h.
            ap (λ (xs : List Message). length xs)
              (take-others m k num_relays j x g.requests rest taken
                (λ z. absurd (omega (arith, z))))) in
      rw (← same) (omega (arith, fewer))

  received-keeps :
      (g g' : Process m) (x : Message) (rest : m.State) (ack : Option ℤ)
      → m.take (service_name num_relays) g.requests ≡ some (x, rest)
      → sink_service_turn m g ≡ done ack g'
      → NothingLost m k g
      → NothingLost m k g'
  unfolding sink_service_turn
  received-keeps g g' x rest ack taken e w =
      let (h', y, ends, same) =
        in_process-done m (record g { requests = rest }) g' ack
          (sink_service (pos g.clock) x g.sink) (rw (taken, sink_service_turn) at e) in
      let more = sink_service-length (pos g.clock) x g.sink h' y ends in
      let fewer = ap (λ (xs : List Message). length xs) (take-row m k x g.requests rest taken) in
      rw (← same) (omega (arith, more, fewer, w))

  pub receive-Nearer :
      (g g' : Process m) (x : Message) (rest : m.State) (ack : Option ℤ)
      → m.take (service_name num_relays) g.requests ≡ some (x, rest)
      → sink_service_turn m g ≡ done ack g'
      → Nearer g
  unfolding sink_service_turn
  receive-Nearer g g' x rest (some a) taken e = record {
    next = g';
    turn = takes g g' a e;
    less = received-less g g' x rest (some a) taken e;
    keeps = received-keeps g g' x rest (some a) taken e;
  }
  receive-Nearer g g' x rest none taken e =
      let h = rw (taken, sink_service_turn) at e in
      let (h', y, ends, same) =
        in_process-done m (record g { requests = rest }) g' none
          (sink_service (pos g.clock) x g.sink) h in
      let h1 = rw ends at h in absurd (cc (h1))
