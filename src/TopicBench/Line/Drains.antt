-- ===== src/TopicBench/Line/Drains.antt =====
-- Turns that bring the messages under way to the sink.
pub mod Carry
pub mod Emptied
pub mod Concludes
use ros2_pubsub_benchmark.Prelude.{ℕ, suc, ◌≤◌, ◌<◌, ◌≡◌, List, [], ◌∷◌, some, length}
use ros2_pubsub_benchmark.Prelude.Bytes.{Bytes}
use ros2_pubsub_benchmark.Effect.{exited}
use ros2_pubsub_benchmark.ThriftBench.Sink.{num_relays}
use ros2_pubsub_benchmark.TopicBench.{Message, Topics}
use ros2_pubsub_benchmark.TopicBench.Nodes.{Graph, sink_turn}
use ros2_pubsub_benchmark.TopicBench.Steps.{Step}
use ros2_pubsub_benchmark.TopicBench.Line.{FifoLaws, waiting_at}

-- A topic on which nothing is late.
pub record Prompt (m : Topics) (k : FifoLaws m) : Type 0 where
  pub hand_out :
      (topic : Bytes) (x : Message) (xs : List Message) (s : m.State)
      → k.waiting topic s ≡ x ∷ xs
      → (s' : m.State) × (m.take topic s ≡ some (x, s'))

-- Some turns.
pub data Steps (m : Topics) (g : Graph m) : Graph m → Type 0 where
  none_yet : Steps m g g
  then : (g' g'' : Graph m) → Steps m g g' → Step m g' g'' → Steps m g g''

pub Steps-join : (m : Topics) (g g' g'' : Graph m) → Steps m g g' → Steps m g' g'' → Steps m g g''
Steps-join m g g' _ p none_yet = p
Steps-join m g g' _ p (then h h' q s) = then h h' (Steps-join m g g' h p q) s

module _ (m : Topics) (k : FifoLaws m) where
  -- The topics behind number n are empty.
  abbrev pub Clear : Graph m → ℕ → Type 0
  Clear g n = (j : ℕ) → n < j → j ≤ num_relays → waiting_at m k g.topics j ≡ []

  -- One message has gone from topic n to the sink, and xs are left there.
  pub record Carried (n : ℕ) (xs : List Message) (g g' : Graph m) : Type 0 where
    pub path : Steps m g g'
    pub clear : Clear g' n
    pub left : waiting_at m k g'.topics n ≡ xs
    pub before : (j : ℕ) → j < n → waiting_at m k g'.topics j ≡ waiting_at m k g.topics j
    pub more : length g'.sink.samples ≡ suc (length g.sink.samples)
    pub few : length g'.sink.samples < 1000
    pub counted : g'.msgid ≡ g.msgid

  -- The process ends first.
  pub record Ended (g : Graph m) : Type 0 where
    pub last : Graph m
    pub path : Steps m g last
    pub after : Graph m
    pub exit : sink_turn m last ≡ exited after
