-- ===== src/ServiceBench/Steps.antt =====
-- `main` of psrv/src/srv.cpp: the client thread runs beside the executor, which gives the services
-- their turns in an order that nothing fixes, while the clock goes on.
use ros2_pubsub_benchmark.Prelude.{ℕ, ◌^◌, ◌≤◌, ◌<◌, ◌≡◌, Option}
use ros2_pubsub_benchmark.Prelude.Int.{ℤ}
use ros2_pubsub_benchmark.Effect.{done}
use ros2_pubsub_benchmark.ThriftBench.Sink.{num_relays}
use ros2_pubsub_benchmark.TopicBench.{Topics}
use ros2_pubsub_benchmark.ServiceBench.Nodes.{
  Process, new_process, client_round, service_turn, sink_service_turn,
}

-- One turn that returns. The clock is steady, and its readings are of type int64_t.
pub data Turn (m : Topics) : Process m → Process m → Type 0 where
  tick :
      (g : Process m) (later : ℕ)
      → g.clock ≤ later
      → later < 2 ^ 63
      → Turn m g (record g { clock = later })
  requested : (g g' : Process m) → client_round m g ≡ done tt g' → Turn m g g'
  relayed :
      (g g' : Process m) (i : ℕ) (ack : Option ℤ)
      → i < num_relays
      → service_turn m i g ≡ done ack g'
      → Turn m g g'
  received : (g g' : Process m) (ack : Option ℤ) → sink_service_turn m g ≡ done ack g' → Turn m g g'

-- What the process can be in after some turns.
pub data Reachable (m : Topics) : Process m → Type 0 where
  started : Reachable m (new_process m)
  after : (g g' : Process m) → Reachable m g → Turn m g g' → Reachable m g'
