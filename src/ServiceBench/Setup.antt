-- ===== src/ServiceBench/Setup.antt =====
-- The clients and the services that `main` of psrv/src/srv.cpp makes.
pub mod Wiring
use ros2_pubsub_benchmark.Prelude.{ℕ, zero, suc, ◌+◌, List, [], ◌∷◌, ◌++◌, Option, get_elem?}
use ros2_pubsub_benchmark.Prelude.Bytes.{Bytes, bytes, to_string}
use ros2_pubsub_benchmark.ThriftBench.Sink.{num_relays}

-- A client's node, and the service that it calls.
pub record ClientNode : Type 0 where
  pub name : Bytes
  pub service : Bytes

unfoldable pub client_node : ℕ → ClientNode
unfolding to_string
client_node i = record {
  name = bytes "srv_client_" ++ to_string i;
  service = bytes "srv_relay_" ++ to_string i;
}

-- The loop that makes the clients, from i on, with `left` rounds to go.
unfoldable pub clients_from : (left i : ℕ) → List ClientNode
unfolding client_node
clients_from zero i = []
clients_from (suc left) i = client_node i ∷ clients_from left (suc i)

unfoldable pub main_clients : List ClientNode
unfolding clients_from
main_clients = clients_from (num_relays + 1) 0

-- A relay service's node, its service, and the client that its callback holds. `clients[i + 1]` has
-- no check of its index: out of range there is no value.
pub record RelayService : Type 0 where
  pub name : Bytes
  pub service : Bytes
  pub client : Option ClientNode

unfoldable pub relay_service : List ClientNode → ℕ → RelayService
unfolding to_string
relay_service clients i = record {
  name = bytes "srv_relay_" ++ to_string i;
  service = bytes "srv_relay_" ++ to_string i;
  client = get_elem? clients (i + 1);
}

unfoldable pub services_from : List ClientNode → (left i : ℕ) → List RelayService
unfolding relay_service
services_from clients zero i = []
services_from clients (suc left) i = relay_service clients i ∷ services_from clients left (suc i)

unfoldable pub main_relay_services : List RelayService
unfolding services_from main_clients
main_relay_services = services_from main_clients num_relays 0

-- The name of the sink's service, and the client of the client thread.
unfoldable pub sink_service_name : Bytes
unfolding to_string
sink_service_name = bytes "srv_relay_" ++ to_string num_relays

unfoldable pub thread_client : Option ClientNode
unfolding main_clients
thread_client = get_elem? main_clients 0
