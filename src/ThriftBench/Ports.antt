-- ===== src/ThriftBench/Ports.antt =====
-- The set-up of thrift-bench/bench.cpp: which server listens on which port, and which port each
-- client connects to.
pub mod Routing
use ros2_pubsub_benchmark.Prelude.{
  ℕ, zero, suc, ◌+◌, List, [], ◌∷◌, ◌++◌, Option, none, some, ◌==◌, if◌then◌else◌,
}
use ros2_pubsub_benchmark.Prelude.Int.{ℤ}
use ros2_pubsub_benchmark.Prelude.Bytes.{Bytes, bytes}
use ros2_pubsub_benchmark.Effect.{Exception, M, throw}
use ros2_pubsub_benchmark.Thrift.Protocol.{Protocol, Laws}
use ros2_pubsub_benchmark.Thrift.Timing.{Timing}
use ros2_pubsub_benchmark.Thrift.Client.Pointers.{BenchClient, new_client}
use ros2_pubsub_benchmark.Thrift.Remote.{Network, remote_bench}
use ros2_pubsub_benchmark.ThriftBench.Sink.{num_relays, sink_bench}
use ros2_pubsub_benchmark.ThriftBench.Relay.{relay_bench}
use ros2_pubsub_benchmark.ThriftBench.Chain.{World}

abbrev pub relay_port_start : ℕ
relay_port_start = 5000

-- port_ of RelayClient(id) and of BenchServer(id, …).
unfoldable pub port_of : ℕ → ℕ
port_of id = id + relay_port_start

-- A socket's host and port; a BinaryProtocol over a BufferedTransport over it is known by it.
pub record Socket : Type 0 where
  pub host : Bytes
  pub port : ℕ

pub record RelayClient : Type 0 where
  pub port : ℕ
  pub socket : Socket
  pub client : BenchClient Socket

-- RelayClient(id).
unfoldable pub relay_client : ℕ → RelayClient
unfolding port_of new_client
relay_client id =
    let port = port_of id in
    let socket : Socket = record { host = bytes "localhost"; port = port } in
    record { port = port; socket = socket; client = new_client (some socket) }

-- The handlers that `main` makes.
pub data Handler : Type 0 where
  relay : ℕ → Handler
  sink : Handler

pub record Server : Type 0 where
  pub port : ℕ
  pub handler : Handler

-- The first loop of `main`, from i on, with `left` rounds to go.
unfoldable pub relay_servers : (left i : ℕ) → List Server
unfolding port_of
relay_servers zero i = []
relay_servers (suc left) i =
    record { port = port_of i; handler = relay i } ∷ relay_servers left (suc i)

unfoldable pub main_servers : List Server
unfolding relay_servers port_of
main_servers =
    relay_servers num_relays 0 ++ record { port = port_of num_relays; handler = sink } ∷ []

-- Who answers a connection to a port.
unfoldable pub listening : List Server → ℕ → Option Handler
listening [] port = none
listening (s ∷ rest) port = if s.port == port then some s.handler else listening rest port

-- handlers[i]->prepare() for each relay, from i on: whether every connection is accepted.
unfoldable pub prepare_all : List Server → (left i : ℕ) → Option (Unit {0})
unfolding listening port_of
prepare_all servers zero i = some tt
prepare_all servers (suc left) i = elim (listening servers (port_of (i + 1))) [
  | some _ ↦ prepare_all servers left (suc i)
  | none ↦ none
]

module _ (p : Protocol) (l : Laws p) (net : Network p l) (what : Exception → Bytes) (fuel : ℕ)
    (nanosec : ℤ) (servers : List Server) (refused : Exception) where
  -- What happens to a request on a port: the server that listens there hands it to its handler, and
  -- a relay's client calls the next port. A request for a port without the handler that is left to
  -- go is refused.
  unfoldable pub routed : (hops port : ℕ) → Timing → M (World p l net hops) ℤ
  unfolding listening port_of
  routed zero port = elim (listening servers port) [
    | some (relay id) ↦ (λ arg. throw refused)
    | some sink ↦ sink_bench nanosec
    | none ↦ (λ arg. throw refused)
  ]
  routed (suc hops) port = elim (listening servers port) [
    | some (relay id) ↦
        relay_bench id (remote_bench p l net what fuel (routed hops (port_of (id + 1))))
    | some sink ↦ (λ arg. throw refused)
    | none ↦ (λ arg. throw refused)
  ]
