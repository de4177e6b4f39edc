-- ===== src/TopicBench.antt =====
-- pnode/src/pub.cpp, the benchmark over ROS 2 topics, with the message of pnodeif/msg/Timing.msg.
-- The topics are rclcpp's, which is not in the repository: a parameter.
pub mod Nodes
pub mod Steps
pub mod Genuine
pub mod Invariant
pub mod Endings
pub mod Setup
pub mod Waiting
pub mod Line
use ros2_pubsub_benchmark.Prelude.{◌≡◌, ◌⊎◌, Option, some}
use ros2_pubsub_benchmark.Prelude.Int.{ℤ}
use ros2_pubsub_benchmark.Prelude.Bytes.{Bytes}

pub record Message : Type 0 where
  pub msgid : ℤ
  pub nanosec : ℤ
  pub source : Bytes

-- What the topics hold, by their names: `take` yields what the topic's subscription is handed next.
pub record Topics : Type 1 where
  pub State : Type 0
  pub start : State
  pub publish : Bytes → Message → State → State
  pub take : Bytes → State → Option (Message × State)

-- A subscription is handed only what has been published on its topic. A message may get lost, may
-- be late, and may be handed over twice.
pub record TopicsLaws (m : Topics) : Type 1 where
  pub Holds : Bytes → Message → m.State → Type 0
  pub start_empty : (topic : Bytes) (x : Message) → Holds topic x m.start → ⊥
  pub publish_holds :
      (topic other : Bytes) (x y : Message) (s : m.State)
      → Holds other y (m.publish topic x s)
      → Holds other y s ⊎ ((other ≡ topic) × (y ≡ x))
  pub take_holds :
      (topic : Bytes) (x : Message) (s s' : m.State)
      → m.take topic s ≡ some (x, s')
      → Holds topic x s
  pub take_keeps :
      (topic other : Bytes) (x y : Message) (s s' : m.State)
      → m.take topic s ≡ some (x, s')
      → Holds other y s'
      → Holds other y s
