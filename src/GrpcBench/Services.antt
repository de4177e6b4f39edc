-- ===== src/GrpcBench/Services.antt =====
-- The services Relay and Sink of grpc-bench/gbench/bench.cpp.
use ros2_pubsub_benchmark.Prelude.{ℕ, ◌++◌, length, leb, if◌then◌else◌}
use ros2_pubsub_benchmark.Prelude.Int.{ℤ}
use ros2_pubsub_benchmark.Prelude.Bytes.{bytes, to_string}
use ros2_pubsub_benchmark.Effect.{done, M, pure, ◌>>=◌}
use ros2_pubsub_benchmark.ThriftBench.Sink.{SinkHandler, nanosec_per_hop, insert_sample, finish}
use ros2_pubsub_benchmark.GrpcBench.{Request, Response, Status, ok}

-- `copy` of Relay::bench: the caller's numbers, under the relay's name.
unfoldable pub relay_request : ℕ → Request → Request
unfolding to_string
relay_request port request = record {
  msgid = request.msgid;
  nanosec = request.nanosec;
  source = bytes "relay " ++ to_string port;
}

-- Relay::bench. `stub` is client_->bench; nothing looks at the status that it returns, or at its
-- response.
unfoldable pub relay_answer :
    {W : Type 0} → ℕ → (Request → M W (Status × Response)) → Request → M W (Status × Response)
unfolding relay_request
relay_answer port stub request =
    stub (relay_request port request) >>= λ answer. pure (ok, record { ack = request.msgid })

-- Sink::bench, when the steady clock reads `nanosec`. The sample, its line and the summary are made
-- by the same lines as in the Thrift benchmark.
unfoldable pub sink_answer : ℤ → Request → M SinkHandler (Status × Response)
unfolding nanosec_per_hop insert_sample finish
sink_answer nanosec request h =
    let h' = insert_sample (nanosec_per_hop nanosec request.nanosec) h in
    if leb 1000 (length h'.samples) then finish h' else done (ok, record { ack = request.msgid }) h'
