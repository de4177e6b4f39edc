-- ===== src/ServiceBench/Queued.antt =====
-- Services that keep the last ten requests, rmw's default for services, and what psrv/src/srv.cpp
-- does over them.
pub mod Numbers
pub mod Rows
pub mod InTurn
pub mod Load
pub mod Progress
pub mod Onward
pub mod Best
pub mod Completes
pub mod Bounded
use ros2_pubsub_benchmark.Prelude.{ℕ, suc, ◌+◌, ◌≤◌, ◌≡◌, List, [], ◌∷◌, length}
use ros2_pubsub_benchmark.Prelude.Int.{pos}
use ros2_pubsub_benchmark.ThriftBench.Sink.{num_relays}
use ros2_pubsub_benchmark.TopicBench.{Message, Topics}
use ros2_pubsub_benchmark.TopicBench.Line.{FifoLaws, row}
use ros2_pubsub_benchmark.ServiceBench.Nodes.{Process, service_name}

-- The requests' numbers rise from the front on, from n at the least, and stay below `count`.
abbrev pub Ascending : ℕ → ℕ → List Message → Type 0
Ascending n count [] = n ≤ count
Ascending n count (x ∷ xs) = (a : ℕ) × (x.msgid ≡ pos a) × (n ≤ a) × Ascending (suc a) count xs

module _ (m : Topics) (k : FifoLaws m) where
  abbrev pub requests_at : m.State → ℕ → List Message
  requests_at s i = k.waiting (service_name i) s

  -- The requests under way, from the sink service's back to the first service's.
  abbrev pub under_way : Process m → List Message
  under_way g = row (suc num_relays) (requests_at g.requests)

  -- Each request under way has a number of a round, at least that of the sink's samples.
  abbrev pub InTurn : Process m → Type 0
  InTurn g = Ascending (length g.sink.samples) g.round (under_way g)

  -- Every request that the client has made has been sampled or is under way.
  abbrev pub NothingLost : Process m → Type 0
  NothingLost g = length g.sink.samples + length (under_way g) ≡ g.round
