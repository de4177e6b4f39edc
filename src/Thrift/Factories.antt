-- ===== src/Thrift/Factories.antt =====
-- BenchIfFactory, BenchIfSingletonFactory and BenchProcessorFactory of thrift-bench/gen-cpp/Bench.h
-- and Bench.cpp. A handler is its method `bench`.
use ros2_pubsub_benchmark.Prelude.{ℕ, Bool, none}
use ros2_pubsub_benchmark.Prelude.Int.{ℤ}
use ros2_pubsub_benchmark.Prelude.Bytes.{Bytes}
use ros2_pubsub_benchmark.Effect.{Exception, M, pure, ◌>>=◌}
use ros2_pubsub_benchmark.Thrift.Protocol.{Protocol}
use ros2_pubsub_benchmark.Thrift.Zoom.{on_second}
use ros2_pubsub_benchmark.Thrift.Timing.{Timing}
use ros2_pubsub_benchmark.Thrift.Processor.{dispatch_call}

-- BenchIfFactory; a connection's information is of any type.
pub record HandlerFactory (Connection W : Type 0) : Type 0 where
  pub get_handler : Connection → M W (Timing → M W ℤ)
  pub release_handler : (Timing → M W ℤ) → W → W

abbrev pub singleton_factory :
    {Connection W : Type 0} → (Timing → M W ℤ) → HandlerFactory Connection W
singleton_factory iface = record {
  get_handler = λ connection. pure iface;
  release_handler = λ handler w. w;
}

-- A processor, and what happens when nothing holds it any longer.
pub record OwnedProcessor (p : Protocol) (W : Type 0) : Type 0 where
  pub dispatch : ℕ → Bytes → ℤ → M (p.State × W) Bool
  pub dispose : p.State × W → p.State × W

-- BenchProcessorFactory::getProcessor. The processor holds the handler, which is given back to its
-- factory behind it; it has no event handler yet.
unfoldable pub get_processor :
    (p : Protocol) {Connection W : Type 0}
    → (Exception → Bytes)
    → HandlerFactory Connection W
    → Connection
    → M (p.State × W) (OwnedProcessor p W)
unfolding dispatch_call
get_processor p what factory connection = on_second (factory.get_handler connection) >>= λ handler.
    pure (record {
      dispatch = dispatch_call p what none handler;
      dispose = λ s. (s.0, factory.release_handler handler s.1);
    })
