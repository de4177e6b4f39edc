-- ===== src/Examples/Bench.antt =====
-- The summary on a few samples, and the benchmark over the protocol of tokens.
use ros2_pubsub_benchmark.Prelude.{
  ℕ, zero, suc, ◌+◌, ◌*◌, ◌≡◌, refl, ap, List, [], ◌∷◌, some, arith, length,
}
use ros2_pubsub_benchmark.Prelude.Int.{pos}
use ros2_pubsub_benchmark.Effect.{onto}
use ros2_pubsub_benchmark.Stats.{stats, print_stats}
use ros2_pubsub_benchmark.Stats.Report.{IsSummary, print_stats-IsSummary}
use ros2_pubsub_benchmark.Thrift.Protocol.Machine.{token_machine, token_machine-Laws}
use ros2_pubsub_benchmark.Thrift.Protocol.Rules.{Runs, Exits}
use ros2_pubsub_benchmark.ThriftBench.Sink.{
  SinkHandler, new_sink, num_relays, nanosec_per_hop, insert_sample, sink_bench,
}
use ros2_pubsub_benchmark.ThriftBench.Chain.{Round, main_bench, main_loop}
use ros2_pubsub_benchmark.ThriftBench.Chain.Delivery.{idle_world, world_view, main_bench-returned}
use ros2_pubsub_benchmark.ThriftBench.Chain.Session.{Session, samples_of, main_loop-Session}
use ros2_pubsub_benchmark.ThriftBench.Sink.Unordered.{
  forget_order, unordered_bench, sink_bench-unordered,
}
use ros2_pubsub_benchmark.ThriftBench.Ports.{port_of, main_servers, prepare_all, routed}
use ros2_pubsub_benchmark.ThriftBench.Ports.Routing.{main_servers-routed}
use ros2_pubsub_benchmark.Thrift.Remote.{remote_bench}
use ros2_pubsub_benchmark.Effect.{foreign}
use ros2_pubsub_benchmark.Examples.{sample_timing, token_network, text_of}

print_stats-IsSummary_example :
    IsSummary
      (pos 9000 ∷ pos 1500 ∷ pos 5000 ∷ [])
      (print_stats (pos 9000 ∷ pos 1500 ∷ pos 5000 ∷ []))
print_stats-IsSummary_example =
    print_stats-IsSummary (pos 9000 ∷ pos 1500 ∷ pos 5000 ∷ []) (omega arith) (omega arith)

print_stats-runs :
    print_stats (pos 9000 ∷ pos 1500 ∷ pos 5000 ∷ []) ≡ some (stats 3 (pos 5) (pos 9))
unfolding print_stats
print_stats-runs = refl

-- A sink with n samples.
abbrev pub filled : ℕ → SinkHandler
filled zero = new_sink
filled (suc n) = record { samples = pos n ∷ (filled n).samples; output = [] }

pub filled-length : (n : ℕ) → length (filled n).samples ≡ n
filled-length zero = refl
filled-length (suc n) = ap suc (filled-length n)

main_bench-returned_example :
    Runs
      (world_view token_machine token_machine-Laws token_network (suc num_relays))
      (main_bench token_machine token_machine-Laws token_network text_of 4
        (pos 1234999)
        sample_timing)
      (idle_world (suc num_relays) new_sink)
      (pos 7)
      (idle_world
        (suc num_relays)
        (insert_sample (nanosec_per_hop (pos 1234999) (pos 1234567)) new_sink))
main_bench-returned_example =
    main_bench-returned token_machine token_machine-Laws token_network text_of 4 (pos 1234999)
      (omega arith) (omega arith) sample_timing new_sink (omega arith)

-- Requests at every 100 ns, the last one first, each 42 ns on its way.
abbrev rounds_of : ℕ → List Round
rounds_of zero = []
rounds_of (suc n) = record { sent = pos (n * 100); received = pos (n * 100 + 42) } ∷ rounds_of n

rounds_of-length : (n : ℕ) → length (rounds_of n) ≡ n
rounds_of-length zero = refl
rounds_of-length (suc n) = ap suc (rounds_of-length n)

main_loop-Session_example :
    (h' : SinkHandler) × Exits
      (world_view token_machine token_machine-Laws token_network (suc num_relays))
      (main_loop token_machine token_machine-Laws token_network text_of 4 (rounds_of 1000))
      (idle_world (suc num_relays) new_sink)
      (idle_world (suc num_relays) h')
    × Session (samples_of (rounds_of 1000)) new_sink h'
main_loop-Session_example =
    main_loop-Session token_machine token_machine-Laws token_network text_of 4 (omega arith)
      (omega arith) (rounds_of 1000) (rounds_of-length 1000)

main_servers-routed_example :
    (prepare_all main_servers num_relays 0 ≡ some tt)
    × (remote_bench token_machine token_machine-Laws token_network text_of 4 (
          routed token_machine token_machine-Laws token_network text_of 4
            (pos 1234999)
            main_servers
            (foreign 1)
            num_relays
            (port_of 0))
        ≡ main_bench token_machine token_machine-Laws token_network text_of 4 (pos 1234999))
main_servers-routed_example =
    main_servers-routed token_machine token_machine-Laws token_network text_of 4 (pos 1234999)
      (foreign 1)

sink_bench-unordered_example :
    unordered_bench (pos 1234999) sample_timing (forget_order (filled 999))
    ≡ onto forget_order (sink_bench (pos 1234999) sample_timing (filled 999))
sink_bench-unordered_example = sink_bench-unordered (pos 1234999) sample_timing (filled 999)
