-- ===== src/ServiceBench/Setup/Wiring.antt =====
-- Which service calls which.
use ros2_pubsub_benchmark.Prelude.{
  ℕ, zero, suc, ◌+◌, ◌<◌, ◌≡◌, refl, ap, ◌∙◌, List, ◌++◌, some, get_elem?, arith,
}
use ros2_pubsub_benchmark.Prelude.Bytes.{bytes, to_string}
use ros2_pubsub_benchmark.ThriftBench.Sink.{num_relays}
use ros2_pubsub_benchmark.ServiceBench.Nodes.{service_name}
use ros2_pubsub_benchmark.ServiceBench.Setup.{
  ClientNode, client_node, clients_from, main_clients, RelayService, relay_service, services_from,
  main_relay_services, sink_service_name, thread_client,
}

clients_from-get_elem? :
    (left i k : ℕ) → k < left → get_elem? (clients_from left i) k ≡ some (client_node (i + k))
unfolding clients_from
clients_from-get_elem? zero i k h = absurd (omega arith)
clients_from-get_elem? (suc left) i zero h = let same : i + 0 ≡ i = omega arith in rw same refl
clients_from-get_elem? (suc left) i (suc k) h =
    let same : i + suc k ≡ suc i + k = omega arith in
    rw same (clients_from-get_elem? left (suc i) k (omega arith))

services_from-get_elem? :
    (clients : List ClientNode) (left i k : ℕ)
    → k < left
    → get_elem? (services_from clients left i) k ≡ some (relay_service clients (i + k))
unfolding services_from
services_from-get_elem? clients zero i k h = absurd (omega arith)
services_from-get_elem? clients (suc left) i zero h =
    let same : i + 0 ≡ i = omega arith in rw same refl
services_from-get_elem? clients (suc left) i (suc k) h =
    let same : i + suc k ≡ suc i + k = omega arith in
    rw same (services_from-get_elem? clients left (suc i) k (omega arith))

main_clients-get_elem? :
    (k : ℕ) → k < num_relays + 1 → get_elem? main_clients k ≡ some (client_node k)
unfolding main_clients
main_clients-get_elem? k h =
    let same : 0 + k ≡ k = omega arith in
    clients_from-get_elem? (num_relays + 1) 0 k h ∙ ap (λ i. some (client_node i)) same

-- The relay service between one service and the next.
abbrev pub service_between : ℕ → RelayService
service_between k = record {
  name = service_name k;
  service = service_name k;
  client =
      some (record {
        name = bytes "srv_client_" ++ to_string (k + 1);
        service = service_name (k + 1);
      });
}

relay_service-between : (k : ℕ) → k < num_relays → relay_service main_clients k ≡ service_between k
unfolding relay_service service_name client_node
relay_service-between k h = rw (main_clients-get_elem? (k + 1) (omega arith)) refl

-- What `main` of the services' benchmark makes is joined to a chain: every read of the array of
-- clients is within it, the callback of each relay service k holds the client of the next service,
-- the client thread is given the client of the first service, and the sink's service has the last
-- name.
pub main_relay_services-chained :
    ((k : ℕ) → k < num_relays → get_elem? main_relay_services k ≡ some (service_between k))
    × (thread_client ≡ some (client_node 0))
    × ((client_node 0).service ≡ service_name 0)
    × (sink_service_name ≡ service_name num_relays)
unfolding main_relay_services thread_client client_node sink_service_name service_name to_string
main_relay_services-chained = (
  λ k h.
      let same : 0 + k ≡ k = omega arith in
      services_from-get_elem? main_clients num_relays 0 k h
      ∙ ap (λ i. some (relay_service main_clients i)) same
      ∙ ap some (relay_service-between k h),
  main_clients-get_elem? 0 (omega arith),
  refl,
  refl,
)
