-- ===== src/ThriftBench/Chain/Session.antt =====
-- The whole benchmark: 1000 requests of `main` through the relays.
use mathlib.Core.List.{map, reverse, reverse-cons}
use ros2_pubsub_benchmark.Prelude.{
  ℕ, suc, ◌+◌, ◌≤◌, ◌<◌, ◌≡◌, ◌∙◌, List, [], ◌∷◌, ◌++◌, append_assoc, some, length, arith,
}
use ros2_pubsub_benchmark.Prelude.Int.{ℤ}
use ros2_pubsub_benchmark.Prelude.Bytes.{Bytes}
use ros2_pubsub_benchmark.Effect.{Exception}
use ros2_pubsub_benchmark.Stats.{Line, per_hop}
use ros2_pubsub_benchmark.Stats.Report.{IsSummary}
use ros2_pubsub_benchmark.Thrift.Protocol.{Protocol, Laws}
use ros2_pubsub_benchmark.Thrift.Protocol.Rules.{Exits, Exits-bind, Exits-first}
use ros2_pubsub_benchmark.Thrift.Remote.{Network}
use ros2_pubsub_benchmark.ThriftBench.Sink.{
  SinkHandler, new_sink, num_relays, nanosec_per_hop, insert_sample,
}
use ros2_pubsub_benchmark.ThriftBench.Sink.Laws.{Finished, finish-Finished}
use ros2_pubsub_benchmark.ThriftBench.Chain.{Round, client_message, main_loop}
use ros2_pubsub_benchmark.ThriftBench.Chain.Delivery.{
  idle_world, world_view, main_bench-returned, main_bench-exited,
}

-- The samples that the rounds make, in their order.
abbrev pub samples_of : List Round → List ℤ
samples_of = map λ r. nanosec_per_hop r.received r.sent

-- From h on, the samples are added to the sink, a line is printed for each, and then the summary of
-- them all.
pub record Session (samples : List ℤ) (h h' : SinkHandler) : Type 0 where
  pub line : Line
  pub summary : IsSummary (reverse samples ++ h.samples) (some line)
  pub last : h' ≡ record {
    samples = reverse samples ++ h.samples;
    output = h.output ++ (map per_hop samples ++ line ∷ []);
  }

pub Session-one :
    (x : ℤ) (h h' : SinkHandler) → Finished (insert_sample x h) h' → Session (x ∷ []) h h'
unfolding insert_sample
Session-one x h h' f = record {
  line = f.line;
  summary = f.summary;
  last = f.last ∙ (simp append_assoc);
}

pub Session-more :
    (x : ℤ) (xs : List ℤ) (h h' : SinkHandler)
    → Session xs (insert_sample x h) h'
    → Session (x ∷ xs) h h'
unfolding insert_sample
Session-more x xs h h' f = record {
  line = f.line;
  summary = rw (reverse-cons, append_assoc) f.summary;
  last = f.last ∙ (simp (reverse-cons, append_assoc));
}

module _ (p : Protocol) (l : Laws p) (net : Network p l) (what : Exception → Bytes) (fuel : ℕ)
    (enough : 3 < fuel) (deep : 3 ≤ l.limit) where
  main_loop-from :
      (rounds : List Round) (r : Round) (h : SinkHandler)
      → suc (length rounds) + length h.samples ≡ 1000
      → (h' : SinkHandler) × Exits
          (world_view p l net (suc num_relays))
          (main_loop p l net what fuel (r ∷ rounds))
          (idle_world (suc num_relays) h)
          (idle_world (suc num_relays) h')
        × Session (samples_of (r ∷ rounds)) h h'
  unfolding main_loop client_message insert_sample
  main_loop-from [] r h total =
      let x : ℤ = nanosec_per_hop r.received r.sent in
      let (h', e, f) = finish-Finished {A = ℤ} (insert_sample x h) (omega arith) (omega arith) in
      (
        h',
        Exits-first _ (
            main_bench-exited p l net what fuel r.received enough deep (client_message r.sent) h h'
              (omega arith) e),
        Session-one x h h' f,
      )
  main_loop-from (q ∷ rounds) r h total =
      let x : ℤ = nanosec_per_hop r.received r.sent in
      let (h', e, f) = main_loop-from rounds q (insert_sample x h) (omega arith) in
      (
        h',
        Exits-bind _
            (main_bench-returned p l net what fuel r.received enough deep (client_message r.sent) h
              (omega arith))
            e,
        Session-more x (samples_of (q ∷ rounds)) h h' f,
      )

  -- With fuel above 3 and a nesting limit of at least 3, the loop of `main` that sends 1000
  -- requests through the 20 relays to a new sink ends the process, at whatever times they are sent
  -- and received. By then the sink has one sample for each request, the latency of that request per
  -- hop, has printed a line for each, in the order of the requests, and then the summary of all
  -- 1000; every connection is idle.
  pub main_loop-Session :
      (rounds : List Round)
      → length rounds ≡ 1000
      → (h' : SinkHandler) × Exits
          (world_view p l net (suc num_relays))
          (main_loop p l net what fuel rounds)
          (idle_world (suc num_relays) new_sink)
          (idle_world (suc num_relays) h')
        × Session (samples_of rounds) new_sink h'
  main_loop-Session [] total = absurd (omega arith)
  main_loop-Session (r ∷ rounds) total = main_loop-from rounds r new_sink (omega arith)
