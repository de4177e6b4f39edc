-- ===== src/GrpcBench/Chain.antt =====
-- `main` of grpc-bench/gbench/bench.cpp: the relays, the sink and the client. What a channel of the
-- gRPC library does with a call is a parameter.
pub mod Delivery
pub mod Failure
use ros2_pubsub_benchmark.Prelude.{ℕ, zero, suc, ◌+◌, List, [], ◌∷◌, ◌++◌}
use ros2_pubsub_benchmark.Prelude.Int.{ℤ, pos}
use ros2_pubsub_benchmark.Prelude.Bytes.{bytes}
use ros2_pubsub_benchmark.Effect.{M, pure, modify, ◌>>=◌, ◌>>◌}
use ros2_pubsub_benchmark.Stats.{status}
use ros2_pubsub_benchmark.ThriftBench.Sink.{SinkHandler, num_relays}
use ros2_pubsub_benchmark.GrpcBench.{Request, Response, Status, ok, failed}
use ros2_pubsub_benchmark.GrpcBench.Services.{relay_answer, sink_answer}

abbrev pub Service : Type 0
Service = Request → M SinkHandler (Status × Response)

-- The stub on a channel, as a function of the service that listens at the channel's other end.
abbrev pub Channel : Type 0
Channel = Service → Service

module _ (channels : ℕ → Channel) (nanosec : ℤ) where
  -- The service on port id + 5000, when `hops` more ports follow it.
  unfoldable pub service : (hops id : ℕ) → Service
  service zero id = sink_answer nanosec
  service (suc hops) id =
      relay_answer (id + 5000) (channels (id + 5000 + 1) (service hops (suc id)))

  -- The client's stub.
  unfoldable pub main_request : Service
  main_request = channels 5000 (service num_relays 0)

unfoldable pub client_request : ℤ → Request
client_request nanosec = record { msgid = pos 10; source = bytes "client"; nanosec = nanosec }

-- What `main` prints of an answer.
unfoldable pub report : Status × Response → SinkHandler → SinkHandler
report (ok, response) h = h
report (failed message, response) h = record h {
  output = h.output ++ status message response.ack ∷ [];
}

-- One request: the clock when it is sent and when it is received, and what each port's channel does
-- meanwhile.
pub record Sending : Type 0 where
  pub sent : ℤ
  pub received : ℤ
  pub channels : ℕ → Channel

-- The loop of `main`, over its 1000 rounds.
unfoldable pub send_requests : List Sending → M SinkHandler (Unit {0})
send_requests [] = pure tt
send_requests (a ∷ rest) = main_request a.channels a.received (client_request a.sent) >>= λ answer.
    modify (report answer) >> send_requests rest
