-- ===== src/ThriftBench/Relay.antt =====
-- RelayClient and RelayHandler of thrift-bench/bench.cpp.
use ros2_pubsub_benchmark.Prelude.{ℕ, ◌++◌}
use ros2_pubsub_benchmark.Prelude.Int.{ℤ}
use ros2_pubsub_benchmark.Prelude.Bytes.{bytes, to_string}
use ros2_pubsub_benchmark.Effect.{M}
use ros2_pubsub_benchmark.Thrift.Timing.{Timing, new_timing}

-- The message that a relay passes on: a fresh timing with the caller's numbers, and the relay's
-- name for a source.
unfoldable pub relay_copy : ℕ → Timing → Timing
unfolding to_string
relay_copy id arg = record new_timing {
  msgid = arg.msgid;
  nanosec = arg.nanosec;
  source = bytes "relay " ++ to_string id;
}

-- RelayHandler::bench. `client` is the bench of the client that is connected to the next hop.
unfoldable pub relay_bench : {W : Type 0} → ℕ → (Timing → M W ℤ) → Timing → M W ℤ
unfolding relay_copy
relay_bench id client arg = client (relay_copy id arg)
