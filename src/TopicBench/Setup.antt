-- ===== src/TopicBench/Setup.antt =====
-- The nodes that `main` of pnode/src/pub.cpp makes, with the names of their topics.
pub mod Wiring
use ros2_pubsub_benchmark.Prelude.{ℕ, zero, suc, ◌+◌, List, [], ◌∷◌, ◌++◌}
use ros2_pubsub_benchmark.Prelude.Bytes.{Bytes, bytes, to_string}
use ros2_pubsub_benchmark.Prelude.Digits.{stoi}
use ros2_pubsub_benchmark.ThriftBench.Sink.{num_relays}

-- PnodeRelay(options): the name of the node, index_, and the topics of its subscription and its
-- publisher.
pub record RelayNode : Type 0 where
  pub name : Bytes
  pub index : ℕ
  pub subscription : Bytes
  pub publication : Bytes

-- The argument is options.arguments()[0].
unfoldable pub relay_node : Bytes → RelayNode
unfolding stoi to_string
relay_node argument = record {
  name = bytes "relay_" ++ argument;
  index = stoi argument;
  subscription = bytes "msg_" ++ to_string (stoi argument);
  publication = bytes "msg_" ++ to_string (stoi argument + 1);
}

-- The loop that makes the relays, from i on, with `left` rounds to go.
unfoldable pub main_relays : (left i : ℕ) → List RelayNode
unfolding relay_node to_string
main_relays zero i = []
main_relays (suc left) i = relay_node (to_string i) ∷ main_relays left (suc i)

abbrev pub names_of : List RelayNode → List Bytes
names_of [] = []
names_of (r ∷ rs) = r.name ∷ names_of rs

-- The nodes that the executor spins, by their names.
unfoldable pub executor_nodes : List Bytes
unfolding main_relays
executor_nodes = bytes "source" ∷ (names_of (main_relays num_relays 0) ++ bytes "sink" ∷ [])

-- The topics of the source's publisher and of the sink's subscription.
unfoldable pub source_publication : Bytes
source_publication = bytes "msg_0"

unfoldable pub sink_subscription : Bytes
unfolding to_string
sink_subscription = bytes "msg_" ++ to_string num_relays
