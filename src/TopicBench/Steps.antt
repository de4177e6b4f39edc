-- ===== src/TopicBench/Steps.antt =====
-- `main` of pnode/src/pub.cpp: the executor gives the nodes their turns in an order that nothing
-- fixes, while the clock goes on.
use ros2_pubsub_benchmark.Prelude.{ℕ, ◌^◌, ◌≤◌, ◌<◌, ◌≡◌}
use ros2_pubsub_benchmark.Effect.{done}
use ros2_pubsub_benchmark.ThriftBench.Sink.{num_relays}
use ros2_pubsub_benchmark.TopicBench.{Topics}
use ros2_pubsub_benchmark.TopicBench.Nodes.{Graph, new_graph, source_publish, relay_turn, sink_turn}

-- One turn that returns. The clock is steady, and its readings are of type int64_t.
pub data Step (m : Topics) : Graph m → Graph m → Type 0 where
  tick :
      (g : Graph m) (later : ℕ)
      → g.clock ≤ later
      → later < 2 ^ 63
      → Step m g (record g { clock = later })
  published : (g g' : Graph m) → source_publish m g ≡ done tt g' → Step m g g'
  relayed :
      (g g' : Graph m) (index : ℕ)
      → index < num_relays
      → relay_turn m index g ≡ done tt g'
      → Step m g g'
  received : (g g' : Graph m) → sink_turn m g ≡ done tt g' → Step m g g'

-- What the process can be in after some turns.
pub data Reaches (m : Topics) : Graph m → Type 0 where
  started : Reaches m (new_graph m)
  after : (g g' : Graph m) → Reaches m g → Step m g g' → Reaches m g'
