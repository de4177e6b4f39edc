-- ===== src/TopicBench/Endings.antt =====
-- How a turn of the sink of pnode/src/pub.cpp can end.
use ros2_pubsub_benchmark.Prelude.{
  ℕ, suc, ◌<◌, ◌≡◌, refl, ap, ◌⊎◌, inl, inr, some, All, length, leb, leb→le, Bool-cases,
  Option-cases, arith,
}
use ros2_pubsub_benchmark.Prelude.Int.{pos}
use ros2_pubsub_benchmark.Effect.{done, exited}
use ros2_pubsub_benchmark.ThriftBench.Sink.{SinkHandler, num_relays, nanosec_per_hop}
use ros2_pubsub_benchmark.ThriftBench.Sink.Laws.{Finished}
use ros2_pubsub_benchmark.TopicBench.{Message, Topics, TopicsLaws}
use ros2_pubsub_benchmark.TopicBench.Nodes.{
  Graph, record_sample, sink_listen, sink_turn, topic_name, in_graph,
}
use ros2_pubsub_benchmark.TopicBench.Steps.{Reaches}
use ros2_pubsub_benchmark.TopicBench.Genuine.{Plausible, sample-Plausible, WellFormed}
use ros2_pubsub_benchmark.TopicBench.Invariant.{
  sink_listen-returned, sink_listen-exited, Reaches-WellFormed,
}

-- The sink has printed the summary of 1000 samples, each a latency that is possible.
pub record Concluded (now : ℕ) (h : SinkHandler) : Type 0 where
  pub thousand : length h.samples ≡ 1000
  pub plausible : All (Plausible now) h.samples
  pub before : SinkHandler
  pub printed : Finished before h

module _ (m : Topics) (l : TopicsLaws m) where
  handed-ends :
      (g : Graph m) (x : Message) (rest : m.State)
      → m.take (topic_name num_relays) g.topics ≡ some (x, rest)
      → WellFormed m l g
      → ((g' : Graph m) × (in_graph m
              (record g { topics = rest })
              (sink_listen (pos g.clock) x g.sink)
            ≡ done tt g'))
        ⊎ ((g' : Graph m) × (in_graph m
                (record g { topics = rest })
                (sink_listen (pos g.clock) x g.sink)
              ≡ exited g')
            × Concluded g.clock g'.sink)
  unfolding record_sample
  handed-ends g x rest taken w = elim (Bool-cases (leb 1000 (suc (length g.sink.samples)))) [
    | inl full ↦
        let (h', ends, f) =
          sink_listen-exited (pos g.clock) x g.sink (leb→le _ _ full)
            (omega (arith, w.unfinished)) in
        let made =
          w.genuine (topic_name num_relays) x
            (l.take_holds (topic_name num_relays) x g.topics rest taken) in
        let from_message =
          sample-Plausible g.clock made.time x.nanosec w.readable made.stamped made.passed in
        let same = ap (λ (h : SinkHandler). h.samples) f.last in
        inr (
          record g { topics = rest; sink = h' },
          rw ends refl,
          record {
            thousand = rw same (omega (arith, leb→le _ _ full, w.unfinished));
            plausible = rw same (from_message, w.plausible);
            before = record_sample (nanosec_per_hop (pos g.clock) x.nanosec) g.sink;
            printed = f;
          },
        )
    | inr low ↦
        let below : suc (length g.sink.samples) < 1000 = ground arith in
        inl (
          record g {
            topics = rest;
            sink = record_sample (nanosec_per_hop (pos g.clock) x.nanosec) g.sink;
          },
          rw (sink_listen-returned (pos g.clock) x g.sink below) refl,
        )
  ]

  -- If a subscription is handed only what has been published on its topic, then in every state that
  -- the nodes of the topics' benchmark can reach, a turn of the sink returns, or it ends the
  -- process with the summary of exactly 1000 samples printed, each a latency that is not negative
  -- and fits into the time since the clock's start. It never throws, and never reads outside of the
  -- array of samples.
  pub sink_turn-ends :
      (g : Graph m)
      → Reaches m g
      → ((g' : Graph m) × (sink_turn m g ≡ done tt g'))
        ⊎ ((g' : Graph m) × (sink_turn m g ≡ exited g') × Concluded g.clock g'.sink)
  unfolding sink_turn
  sink_turn-ends g r = elim (Option-cases (m.take (topic_name num_relays) g.topics)) [
    | inl idle ↦ inl (g, rw (idle, sink_turn) refl)
    | inr ((x, rest), taken) ↦
        rw (taken, sink_turn) (handed-ends g x rest taken (Reaches-WellFormed m l g r))
  ]
