-- ===== src/ThriftBench/Sink.antt =====
-- SinkHandler of thrift-bench/bench.cpp, the last hop.
pub mod Laws
pub mod Unordered
use ros2_pubsub_benchmark.Prelude.{
  ℕ, ◌+◌, List, [], ◌∷◌, ◌++◌, none, some, length, leb, if◌then◌else◌,
}
use ros2_pubsub_benchmark.Prelude.Int.{ℤ, sub_int64, div_ℤ}
use ros2_pubsub_benchmark.Effect.{done, exited, undefined, M}
use ros2_pubsub_benchmark.Stats.{Line, per_hop, print_stats}
use ros2_pubsub_benchmark.Thrift.Timing.{Timing}

abbrev pub num_relays : ℕ
num_relays = 20

-- `samples` is the multiset data_ in the order of its iteration, which C++ leaves open; `output` is
-- what std::cout has been given, oldest first.
pub record SinkHandler : Type 0 where
  pub samples : List ℤ
  pub output : List Line

abbrev pub new_sink : SinkHandler
new_sink = record { samples = []; output = [] }

-- (nanosec - arg.nanosec) / (kNumRelays + 1), on int64_t. Clock readings are not negative, so that
-- their difference does not overflow; outside their range sub_int64 wraps, where C++ leaves it open.
unfoldable pub nanosec_per_hop : ℤ → ℤ → ℤ
unfolding sub_int64 div_ℤ
nanosec_per_hop nanosec stamp = div_ℤ (sub_int64 nanosec stamp) (num_relays + 1)

-- data_.insert, and the line for the sample.
unfoldable pub insert_sample : ℤ → SinkHandler → SinkHandler
insert_sample hop h = record { samples = hop ∷ h.samples; output = h.output ++ per_hop hop ∷ [] }

-- print_stats(); exit(0).
unfoldable pub finish : {A : Type 0} → M SinkHandler A
finish h = elim (print_stats h.samples) [
  | some line ↦ exited (record h { output = h.output ++ line ∷ [] })
  | none ↦ undefined h
]

-- SinkHandler::bench, when the steady clock reads `nanosec`.
unfoldable pub sink_bench : ℤ → Timing → M SinkHandler ℤ
unfolding nanosec_per_hop insert_sample finish
sink_bench nanosec arg h =
    let h' = insert_sample (nanosec_per_hop nanosec arg.nanosec) h in
    if leb 1000 (length h'.samples) then finish h' else done arg.msgid h'
