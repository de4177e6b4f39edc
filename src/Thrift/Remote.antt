-- ===== src/Thrift/Remote.antt =====
-- A whole remote call: BenchClient at one end of a connection, BenchProcessor at the other. What
-- carries the bytes, and the server's loop around the processor, belong to the Thrift library and
-- are parameters.
pub mod Transparent
use ros2_pubsub_benchmark.Prelude.{ℕ, ◌≡◌, [], ◌++◌, none}
use ros2_pubsub_benchmark.Prelude.Int.{ℤ}
use ros2_pubsub_benchmark.Prelude.Bytes.{Bytes}
use ros2_pubsub_benchmark.Effect.{Exception, done, M, ◌>>=◌, ◌>>◌}
use ros2_pubsub_benchmark.Thrift.Protocol.{Protocol, Laws}
use ros2_pubsub_benchmark.Thrift.Protocol.Wire.{View}
use ros2_pubsub_benchmark.Thrift.Zoom.{on_first, on_second}
use ros2_pubsub_benchmark.Thrift.Timing.{Timing}
use ros2_pubsub_benchmark.Thrift.Client.{send_bench, recv_bench}
use ros2_pubsub_benchmark.Thrift.Processor.{dispatch_call}

-- The network carries what one end has flushed to the other end.
pub record Network (p : Protocol) (l : Laws p) : Type 0 where
  pub carry : p.State → p.State → p.State × p.State
  pub carry_from : (a b : p.State) → l.view (carry a b).0 ≡ record (l.view a) { sent = [] }
  pub carry_to :
      (a b : p.State)
      → l.view (carry a b).1
        ≡ record (l.view b) { incoming = (l.view b).incoming ++ (l.view a).sent }

module _ (p : Protocol) (l : Laws p) (net : Network p l) {W : Type 0} where
  open p use {State, read_message_begin}

  -- The bytes of a call on their way to the server, and those of an answer on their way back.
  unfoldable pub carry_call : M (State × (State × W)) (Unit {0})
  carry_call (c, s) = let r = net.carry c s.0 in done tt (r.0, (r.1, s.1))

  unfoldable pub carry_answer : M (State × (State × W)) (Unit {0})
  carry_answer (c, s) = let r = net.carry s.0 c in done tt (r.1, (r.0, s.1))

  -- The library's TDispatchProcessor::process reads the header, and hands the call to dispatchCall.
  -- The server has no event handler.
  unfoldable pub remote_bench :
      (Exception → Bytes) → ℕ → (Timing → M W ℤ) → Timing → M (State × (State × W)) ℤ
  remote_bench what fuel iface arg = do
    on_first (send_bench p arg)
    carry_call
    header ← on_second (on_first read_message_begin)
    handled ← on_second (dispatch_call p what none iface fuel header.0 header.2)
    carry_answer
    on_first (recv_bench p fuel)
