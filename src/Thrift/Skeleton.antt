-- ===== src/Thrift/Skeleton.antt =====
-- thrift-bench/gen-cpp/Bench_server.skeleton.cpp, a template for a server. The server's loop, the
-- transports and the factories are the Thrift library's.
use ros2_pubsub_benchmark.Prelude.{ℕ, Bool, List, [], ◌∷◌, ◌++◌, none}
use ros2_pubsub_benchmark.Prelude.Int.{ℤ}
use ros2_pubsub_benchmark.Prelude.Bytes.{Bytes, bytes}
use ros2_pubsub_benchmark.Effect.{Exception, undefined, M}
use ros2_pubsub_benchmark.Thrift.Protocol.{Protocol}
use ros2_pubsub_benchmark.Thrift.Timing.{Timing}
use ros2_pubsub_benchmark.Thrift.Processor.{dispatch_call}

abbrev pub skeleton_port : ℕ
skeleton_port = 9090

-- BenchHandler::bench, over what printf has been given. Control reaches the end of a function that
-- returns an int64_t.
unfoldable pub skeleton_bench : Timing → M (List Bytes) ℤ
skeleton_bench arg printed = undefined (printed ++ bytes "bench\n" ∷ [])

-- The server that `main` makes: its port, and the processor that every connection is given to. No
-- event handler is installed.
pub record SkeletonServer (p : Protocol) : Type 0 where
  pub port : ℕ
  pub processor : ℕ → Bytes → ℤ → M (p.State × List Bytes) Bool

unfoldable pub skeleton_server : (p : Protocol) → (Exception → Bytes) → SkeletonServer p
unfolding skeleton_bench dispatch_call
skeleton_server p what = record {
  port = skeleton_port;
  processor = dispatch_call p what none skeleton_bench;
}
