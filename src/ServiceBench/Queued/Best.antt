-- ===== src/ServiceBench/Queued/Best.antt =====
-- How many samples the sink of psrv/src/srv.cpp can get at best.
use ros2_pubsub_benchmark.Prelude.{
  ℕ, ◌+◌, ◌-◌, ◌≤◌, ◌<◌, ◌≡◌, ap, inl, inr, List, [], ◌∷◌, Option, length, ltb, Bool-cases,
  Option-cases, arith,
}
use ros2_pubsub_benchmark.Prelude.Int.{ℤ, pos}
use ros2_pubsub_benchmark.Effect.{done}
use ros2_pubsub_benchmark.ThriftBench.Sink.{num_relays}
use ros2_pubsub_benchmark.TopicBench.{Message, Topics}
use ros2_pubsub_benchmark.TopicBench.Line.{FifoLaws}
use ros2_pubsub_benchmark.ServiceBench.Nodes.{
  Process, service_name, thread_request, client_round, relay_copy_request, service_turn,
  sink_service, sink_service_turn,
}
use ros2_pubsub_benchmark.ServiceBench.Steps.{Turn, tick, requested, relayed, received}
use ros2_pubsub_benchmark.ServiceBench.Queued.{under_way}
use ros2_pubsub_benchmark.ServiceBench.Queued.InTurn.{in_process-done, sink_service-length}
use ros2_pubsub_benchmark.ServiceBench.Queued.Rows.{
  Changes-count, send-Changes, pass-Changes, take-row,
}
use ros2_pubsub_benchmark.ServiceBench.Queued.Progress.{
  sent, passed, client_round-sent, service_turn-passed,
}

module _ (m : Topics) (k : FifoLaws m) where
  -- The samples, the requests under way, and the rounds that are still to come.
  abbrev pub at_best : Process m → ℕ
  at_best g = length g.sink.samples + length (under_way m k g) + (1000 - g.round)

  requested-at_best : (g g' : Process m) → client_round m g ≡ done tt g' → at_best g' ≤ at_best g
  unfolding client_round
  requested-at_best g g' e = elim (Bool-cases (ltb g.round 1000)) [
    | inr over ↦ let h = rw over at e in let same : g ≡ g' = cc (h) in rw (← same) (omega arith)
    | inl going ↦
        let room : g.round < 1000 = ground arith in
        let same : sent m k g ≡ g' = cc (e, client_round-sent m k g room) in
        let x = thread_request g.round (pos g.clock) in
        let longer = Changes-count [] (x ∷ []) _ _ (send-Changes m k x g.requests).0 in
        rw (← same) (omega (arith, longer, room))
  ]

  relayed-at_best :
      (g g' : Process m) (i : ℕ) (ack : Option ℤ)
      → i < num_relays
      → service_turn m i g ≡ done ack g'
      → at_best g' ≤ at_best g
  unfolding service_turn
  relayed-at_best g g' i ack within e = elim (Option-cases (m.take (service_name i) g.requests)) [
    | inl idle ↦
        let h = rw (idle, service_turn) at e in
        let same : g ≡ g' = cc (h) in rw (← same) (omega arith)
    | inr ((x, rest), taken) ↦
        let same : passed m k g i x rest ≡ g' = cc (e, service_turn-passed m k g i x rest taken) in
        let y = relay_copy_request i x in
        let longer =
          Changes-count (x ∷ []) (y ∷ []) _ _
            (pass-Changes m k i x y g.requests rest within taken) in
        rw (← same) (omega (arith, longer))
  ]

  received-at_best :
      (g g' : Process m) (ack : Option ℤ)
      → sink_service_turn m g ≡ done ack g'
      → at_best g' ≤ at_best g
  unfolding sink_service_turn
  received-at_best g g' ack e = elim (Option-cases (m.take (service_name num_relays) g.requests)) [
    | inl idle ↦
        let h = rw (idle, sink_service_turn) at e in
        let same : g ≡ g' = cc (h) in rw (← same) (omega arith)
    | inr ((x, rest), taken) ↦
        let (h', y, ends, same) =
          in_process-done m (record g { requests = rest }) g' ack
            (sink_service (pos g.clock) x g.sink) (rw (taken, sink_service_turn) at e) in
        let more = sink_service-length (pos g.clock) x g.sink h' y ends in
        let fewer = ap (λ (xs : List Message). length xs) (take-row m k x g.requests rest taken) in
        rw (← same) (omega (arith, more, fewer))
  ]

  pub Turn-at_best : (g g' : Process m) → Turn m g g' → at_best g' ≤ at_best g
  Turn-at_best _ _ (tick g later on fits) = omega arith
  Turn-at_best _ _ (requested g g' e) = requested-at_best g g' e
  Turn-at_best _ _ (relayed g g' i ack within e) = relayed-at_best g g' i ack within e
  Turn-at_best _ _ (received g g' ack e) = received-at_best g g' ack e
