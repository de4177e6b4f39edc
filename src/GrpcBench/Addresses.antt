-- ===== src/GrpcBench/Addresses.antt =====
-- The set-up of grpc-bench/gbench/bench.cpp: the address that each service listens on, and the
-- target of each stub. Which addresses a target leads to is a parameter.
pub mod Calls
use ros2_pubsub_benchmark.Prelude.{
  ℕ, zero, suc, ◌+◌, ◌<◌, ◌^◌, ◌≡◌, List, [], ◌∷◌, ◌++◌, Option, none, some, Bool, ◌==◌,
  if◌then◌else◌,
}
use ros2_pubsub_benchmark.Prelude.Int.{ℤ}
use ros2_pubsub_benchmark.Prelude.Bytes.{Bytes, bytes, to_string}
use ros2_pubsub_benchmark.Effect.{pure}
use ros2_pubsub_benchmark.ThriftBench.Sink.{num_relays}
use ros2_pubsub_benchmark.GrpcBench.{Status, new_response}
use ros2_pubsub_benchmark.GrpcBench.Services.{relay_answer, sink_answer}
use ros2_pubsub_benchmark.GrpcBench.Chain.{Service, Channel}

-- port_ of BenchServiceBase(id).
unfoldable pub service_port : ℕ → ℕ
service_port id = id + 5000

-- The listening port of BenchServiceBase::run.
unfoldable pub listen_address : ℕ → Bytes
unfolding to_string
listen_address port = bytes "0.0.0.0:" ++ to_string port

-- The target of Relay(id)'s stub.
unfoldable pub relay_target : ℕ → Bytes
unfolding to_string
relay_target port = bytes "127.0.0.1:" ++ to_string (port + 1)

-- The target of the client's stub.
unfoldable pub client_target : Bytes
client_target = bytes "127.0.0.1:5000"

pub data Node : Type 0 where
  relay : ℕ → Node
  sink : Node

-- A service that has been started.
pub record Running : Type 0 where
  pub address : Bytes
  pub node : Node

-- The loop of `main` that starts the relays, from i on, with `left` rounds to go.
unfoldable pub start_relays : (left i : ℕ) → List Running
unfolding listen_address service_port
start_relays zero i = []
start_relays (suc left) i =
    record { address = listen_address (service_port i); node = relay i } ∷ start_relays left (suc i)

unfoldable pub main_services : List Running
unfolding start_relays listen_address service_port
main_services =
    start_relays num_relays 0
    ++ record { address = listen_address (service_port num_relays); node = sink } ∷ []

module _ (leads : Bytes → Bytes → Bool) where
  -- The network of one host: a service on all interfaces is found under the loopback address, at
  -- its own port.
  abbrev pub Loopback : Type 0
  Loopback =
      (p q : ℕ)
      → p < 2 ^ 16
      → q < 2 ^ 16
      → leads (bytes "127.0.0.1:" ++ to_string q) (listen_address p) ≡ (p == q)

  -- Who answers a target.
  unfoldable pub answering : List Running → Bytes → Option Node
  answering [] target = none
  answering (s ∷ rest) target =
      if leads target s.address then some s.node else answering rest target

  module _ (channels : ℕ → Channel) (nanosec : ℤ) (services : List Running) (refused : Status) where
    -- A call of a stub, up to `hops` relays deep. A call without a service gets an error status.
    unfoldable pub called : (hops : ℕ) → Bytes → Service
    unfolding answering service_port relay_target
    called zero target = elim (answering services target) [
      | some (relay id) ↦ (λ request. pure (refused, new_response))
      | some sink ↦ sink_answer nanosec
      | none ↦ (λ request. pure (refused, new_response))
    ]
    called (suc hops) target = elim (answering services target) [
      | some (relay id) ↦
          relay_answer (service_port id)
            (channels (service_port id + 1) (called hops (relay_target (service_port id))))
      | some sink ↦ (λ request. pure (refused, new_response))
      | none ↦ (λ request. pure (refused, new_response))
    ]
