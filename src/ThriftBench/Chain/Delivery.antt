-- ===== src/ThriftBench/Chain/Delivery.antt =====
-- One request of `main` of thrift-bench/bench.cpp, through the relays to the sink and back.
use ros2_pubsub_benchmark.Prelude.{ℕ, zero, suc, ◌≤◌, ◌<◌, ◌≡◌, refl, length}
use ros2_pubsub_benchmark.Prelude.Int.{ℤ}
use ros2_pubsub_benchmark.Prelude.Bytes.{Bytes}
use ros2_pubsub_benchmark.Effect.{Exception, exited}
use ros2_pubsub_benchmark.Thrift.Protocol.{Protocol, Laws}
use ros2_pubsub_benchmark.Thrift.Protocol.Rules.{Runs, Exits}
use ros2_pubsub_benchmark.Thrift.Protocol.Wire.{View}
use ros2_pubsub_benchmark.Thrift.Zoom.{both}
use ros2_pubsub_benchmark.Thrift.Timing.{Timing}
use ros2_pubsub_benchmark.Thrift.Remote.{Network}
use ros2_pubsub_benchmark.Thrift.Remote.Transparent.{
  idle, delivered, remote_bench-returned, remote_bench-exited,
}
use ros2_pubsub_benchmark.ThriftBench.Sink.{
  SinkHandler, num_relays, nanosec_per_hop, insert_sample, finish, sink_bench,
}
use ros2_pubsub_benchmark.ThriftBench.Sink.Laws.{sink_bench-returned, sink_bench-finish}
use ros2_pubsub_benchmark.ThriftBench.Relay.{relay_copy, relay_bench}
use ros2_pubsub_benchmark.ThriftBench.Chain.{World, handler, main_bench}

-- A world whose connections are seen through their views.
abbrev pub WorldView : ℕ → Type 0
WorldView zero = SinkHandler
WorldView (suc hops) = View × (View × WorldView hops)

-- Every connection idle, and the sink in state h.
abbrev pub idle_world : (hops : ℕ) → SinkHandler → WorldView hops
idle_world zero h = h
idle_world (suc hops) h = (idle, (idle, idle_world hops h))

-- What the sink is handed when relay `id` is handed `arg`.
abbrev pub arrival : (hops id : ℕ) → Timing → Timing
arrival zero id arg = arg
arrival (suc hops) id arg = arrival hops (suc id) (delivered (relay_copy id arg))

arrival-msgid : (hops id : ℕ) (arg : Timing) → (arrival hops id arg).msgid ≡ arg.msgid
unfolding relay_copy
arrival-msgid zero id arg = refl
arrival-msgid (suc hops) id arg = arrival-msgid hops (suc id) (delivered (relay_copy id arg))

arrival-nanosec : (hops id : ℕ) (arg : Timing) → (arrival hops id arg).nanosec ≡ arg.nanosec
unfolding relay_copy
arrival-nanosec zero id arg = refl
arrival-nanosec (suc hops) id arg = arrival-nanosec hops (suc id) (delivered (relay_copy id arg))

module _ (p : Protocol) (l : Laws p) (net : Network p l) where
  open l use {view, limit}

  abbrev pub world_view : (hops : ℕ) → World p l net hops → WorldView hops
  world_view zero h = h
  world_view (suc hops) w = both view (both view (world_view hops)) w

  module _ (what : Exception → Bytes) (fuel : ℕ) (nanosec : ℤ) (enough : 3 < fuel)
      (deep : 3 ≤ limit) where
    -- Whatever the sink makes of what arrives, the handler `hops` relays before it makes too.
    handler-returned :
        (hops id : ℕ) (arg : Timing) (x : ℤ) (h h' : SinkHandler)
        → Runs (λ s. s) (sink_bench nanosec (arrival hops id arg)) h x h'
        → Runs
            (world_view hops)
            (handler p l net what fuel nanosec hops id arg)
            (idle_world hops h)
            x
            (idle_world hops h')
    unfolding handler relay_bench
    handler-returned zero id arg x h h' r = r
    handler-returned (suc hops) id arg x h h' r =
        remote_bench-returned p l net (world_view hops) what fuel
          (handler p l net what fuel nanosec hops (suc id)) (relay_copy id arg) enough deep x
          (handler-returned hops (suc id) (delivered (relay_copy id arg)) x h h' r)

    handler-exited :
        (hops id : ℕ) (arg : Timing) (h h' : SinkHandler)
        → Exits (λ s. s) (sink_bench nanosec (arrival hops id arg)) h h'
        → Exits
            (world_view hops)
            (handler p l net what fuel nanosec hops id arg)
            (idle_world hops h)
            (idle_world hops h')
    unfolding handler relay_bench
    handler-exited zero id arg h h' r = r
    handler-exited (suc hops) id arg h h' r =
        remote_bench-exited p l net (world_view hops) what fuel
          (handler p l net what fuel nanosec hops (suc id)) (relay_copy id arg) enough deep
          (handler-exited hops (suc id) (delivered (relay_copy id arg)) h h' r)

    arrives :
        (sent : Timing) (h : SinkHandler) {x stamp : ℤ}
        → sent.msgid ≡ x
        → sent.nanosec ≡ stamp
        → suc (length h.samples) < 1000
        → Runs
            (λ s. s)
            (sink_bench nanosec sent)
            h
            x
            (insert_sample (nanosec_per_hop nanosec stamp) h)
    arrives sent h {stamp} same_id same_stamp below = record {
      run = λ s e.
          let answer = sink_bench-returned nanosec sent h below in
          (
            insert_sample (nanosec_per_hop nanosec stamp) h,
            cc (e, answer, same_id, same_stamp),
            refl,
          );
    }

    leaves :
        (sent : Timing) (h : SinkHandler) {h' : SinkHandler} {stamp : ℤ}
        → sent.nanosec ≡ stamp
        → 1000 ≤ suc (length h.samples)
        → finish {A = ℤ} (insert_sample (nanosec_per_hop nanosec stamp) h) ≡ exited h'
        → Exits (λ s. s) (sink_bench nanosec sent) h h'
    leaves sent h {h'} same_stamp full ends = record {
      run = λ s e.
          let answer = sink_bench-finish nanosec sent h full in
          (h', cc (e, answer, same_stamp, ends), refl);
    }

    -- With fuel above 3, a nesting limit of at least 3, all connections idle and fewer than 999
    -- samples in the sink, a request of `main` returns its own message number, and leaves all
    -- connections idle and the sink with one sample more: that of the time stamp that the client
    -- put in, against the sink's clock.
    pub main_bench-returned :
        (arg : Timing) (h : SinkHandler)
        → suc (length h.samples) < 1000
        → Runs
            (world_view (suc num_relays))
            (main_bench p l net what fuel nanosec arg)
            (idle_world (suc num_relays) h)
            arg.msgid
            (idle_world (suc num_relays) (insert_sample (nanosec_per_hop nanosec arg.nanosec) h))
    unfolding main_bench
    main_bench-returned arg h below =
        remote_bench-returned p l net (world_view num_relays) what fuel
          (handler p l net what fuel nanosec num_relays 0) arg enough deep arg.msgid
          (handler-returned num_relays 0 (delivered arg) arg.msgid h _ (
            arrives (arrival num_relays 0 (delivered arg)) h
              (arrival-msgid num_relays 0 (delivered arg))
              (arrival-nanosec num_relays 0 (delivered arg)) below))

    -- The request that fills the sink ends the whole process, which runs all the services.
    pub main_bench-exited :
        (arg : Timing) (h h' : SinkHandler)
        → 1000 ≤ suc (length h.samples)
        → finish {A = ℤ} (insert_sample (nanosec_per_hop nanosec arg.nanosec) h) ≡ exited h'
        → Exits
            (world_view (suc num_relays))
            (main_bench p l net what fuel nanosec arg)
            (idle_world (suc num_relays) h)
            (idle_world (suc num_relays) h')
    unfolding main_bench
    main_bench-exited arg h h' full ends =
        remote_bench-exited p l net (world_view num_relays) what fuel
          (handler p l net what fuel nanosec num_relays 0) arg enough deep
          (handler-exited num_relays 0 (delivered arg) h h' (
            leaves (arrival num_relays 0 (delivered arg)) h
              (arrival-nanosec num_relays 0 (delivered arg)) full ends))
