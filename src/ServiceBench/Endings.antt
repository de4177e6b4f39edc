-- ===== src/ServiceBench/Endings.antt =====
-- How a turn of the sink service of psrv/src/srv.cpp can end.
use ros2_pubsub_benchmark.Prelude.{
  suc, ◌<◌, ◌≡◌, refl, ap, ◌⊎◌, inl, inr, some, none, Option, length, leb, leb→le, Bool-cases,
  Option-cases, arith,
}
use ros2_pubsub_benchmark.Prelude.Int.{ℤ, pos}
use ros2_pubsub_benchmark.Effect.{done, exited}
use ros2_pubsub_benchmark.ThriftBench.Sink.{SinkHandler, num_relays, nanosec_per_hop, insert_sample}
use ros2_pubsub_benchmark.TopicBench.{Message, Topics, TopicsLaws}
use ros2_pubsub_benchmark.ServiceBench.Nodes.{
  Process, sink_service, sink_service_turn, service_name, in_process,
}
use ros2_pubsub_benchmark.TopicBench.Endings.{Concluded}
use ros2_pubsub_benchmark.ServiceBench.Steps.{Reachable}
use ros2_pubsub_benchmark.TopicBench.Genuine.{sample-Plausible}
use ros2_pubsub_benchmark.ServiceBench.Labelled.{stamp-Labelled, Sound}
use ros2_pubsub_benchmark.ServiceBench.Invariant.{
  sink_service-returned, sink_service-exited, Reachable-Sound,
}

module _ (m : Topics) (l : TopicsLaws m) where
  handed-ends :
      (g : Process m) (x : Message) (rest : m.State)
      → m.take (service_name num_relays) g.requests ≡ some (x, rest)
      → Sound m l g
      → ((g' : Process m) × (ack : ℤ) × (in_process m
              (record g { requests = rest })
              (sink_service (pos g.clock) x g.sink)
            ≡ done (some ack) g'))
        ⊎ ((g' : Process m) × (in_process m
                (record g { requests = rest })
                (sink_service (pos g.clock) x g.sink)
              ≡ exited g')
            × Concluded g.clock g'.sink)
  unfolding insert_sample
  handed-ends g x rest taken w = elim (Bool-cases (leb 1000 (suc (length g.sink.samples)))) [
    | inl full ↦
        let (h', ends, f) =
          sink_service-exited (pos g.clock) x g.sink (leb→le _ _ full)
            (omega (arith, w.unfinished)) in
        let made =
          w.labelled (service_name num_relays) x
            (l.take_holds (service_name num_relays) x g.requests rest taken) in
        let from_request =
          sample-Plausible g.clock made.time x.nanosec w.readable (stamp-Labelled made)
            made.passed in
        let same = ap (λ (h : SinkHandler). h.samples) f.last in
        inr (
          record g { requests = rest; sink = h' },
          rw ends refl,
          record {
            thousand = rw same (omega (arith, leb→le _ _ full, w.unfinished));
            plausible = rw same (from_request, w.plausible);
            before = insert_sample (nanosec_per_hop (pos g.clock) x.nanosec) g.sink;
            printed = f;
          },
        )
    | inr low ↦
        let below : suc (length g.sink.samples) < 1000 = ground arith in
        inl (
          record g {
            requests = rest;
            sink = insert_sample (nanosec_per_hop (pos g.clock) x.nanosec) g.sink;
          },
          x.msgid,
          rw (sink_service-returned (pos g.clock) x g.sink below) refl,
        )
  ]

  -- If a service is handed only what has been sent to it, then in every state that the client
  -- thread and the services can reach, a turn of the sink service returns, or it ends the process
  -- with the summary of exactly 1000 samples printed, each a latency that is not negative and fits
  -- into the time since the clock's start. It never throws, and never reads outside of the array of
  -- samples.
  pub sink_service_turn-ends :
      (g : Process m)
      → Reachable m g
      → ((g' : Process m) × (ack : Option ℤ) × (sink_service_turn m g ≡ done ack g'))
        ⊎ ((g' : Process m) × (sink_service_turn m g ≡ exited g') × Concluded g.clock g'.sink)
  unfolding sink_service_turn
  sink_service_turn-ends g r = elim (Option-cases (m.take (service_name num_relays) g.requests)) [
    | inl idle ↦ inl (g, none, rw (idle, sink_service_turn) refl)
    | inr ((x, rest), taken) ↦ elim (handed-ends g x rest taken (Reachable-Sound m l g r)) [
      | inl (g', ack, e) ↦ inl (g', some ack, rw (taken, sink_service_turn) e)
      | inr (g', e, c) ↦ inr (g', rw (taken, sink_service_turn) e, c)
    ]
  ]
