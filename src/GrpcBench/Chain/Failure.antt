-- ===== src/GrpcBench/Chain/Failure.antt =====
-- Requests of grpc-bench/gbench/bench.cpp when a channel between two relays fails.
use ros2_pubsub_benchmark.Prelude.{ℕ, zero, suc, ◌+◌, ◌-◌, ◌≤◌, ◌<◌, ◌≡◌, refl, ◌∙◌, arith}
use ros2_pubsub_benchmark.Prelude.Int.{ℤ}
use ros2_pubsub_benchmark.Prelude.Bytes.{Bytes}
use ros2_pubsub_benchmark.Effect.{done}
use ros2_pubsub_benchmark.ThriftBench.Sink.{SinkHandler, num_relays}
use ros2_pubsub_benchmark.GrpcBench.{Request, ok, failed, new_response}
use ros2_pubsub_benchmark.GrpcBench.Services.{relay_request, relay_answer}
use ros2_pubsub_benchmark.GrpcBench.Chain.{Service, Channel, service, main_request}
use ros2_pubsub_benchmark.GrpcBench.Chain.Delivery.{Delivers}

-- Every call fails before it reaches the service, and leaves the response as it was made.
pub record Fails (channel : Channel) (message : Bytes) : Type 0 where
  pub call :
      (s : Service) (request : Request) (h : SinkHandler)
      → channel s request h ≡ done (failed message, new_response) h

module _ (channels : ℕ → Channel) (nanosec : ℤ) (message : Bytes) (broken : ℕ)
    (fails : Fails (channels broken) message)
    (delivers : (port : ℕ) → port < broken → Delivers (channels port)) where
  service-lost :
      (k hops id : ℕ) (request : Request) (h : SinkHandler)
      → k < hops
      → broken ≡ id + 5000 + 1 + k
      → service channels nanosec hops id request h ≡ done (ok, record { ack = request.msgid }) h
  unfolding service relay_answer relay_request
  service-lost k zero id request h within e = absurd (omega arith)
  service-lost zero (suc hops) id request h within e =
      let here : broken ≡ id + 5000 + 1 = omega arith in rw ((rw here at fails).call) refl
  service-lost (suc k) (suc hops) id request h within e =
      rw
        (
          (delivers (id + 5000 + 1) (omega arith)).call,
          service-lost k hops (suc id) (relay_request (id + 5000) request) h (omega arith)
              (omega arith),
        )
        refl

  -- If the channel to one of the services behind the first relay fails every call, and those before
  -- it deliver, the client still gets the status OK with its own message number, and the sink is
  -- left as it was: the failure is not reported.
  pub main_request-lost :
      (request : Request) (h : SinkHandler)
      → 5000 < broken
      → broken ≤ 5000 + num_relays
      → main_request channels nanosec request h ≡ done (ok, record { ack = request.msgid }) h
  unfolding main_request
  main_request-lost request h behind within =
      (delivers 5000 behind).call _ request h
      ∙ service-lost (broken - 5001) num_relays 0 request h (omega arith) (omega arith)
