-- ===== src/Thrift/Client.antt =====
-- BenchClient of thrift-bench/gen-cpp/Bench.cpp, the client of one connection.
pub mod Calls
pub mod Pointers
pub mod Ends
use ros2_pubsub_benchmark.Prelude.{ℕ, Bool, true, false, not, none, some, if◌then◌else◌}
use ros2_pubsub_benchmark.Prelude.Int.{ℤ, pos}
use ros2_pubsub_benchmark.Prelude.Bytes.{bytes, same_bytes}
use ros2_pubsub_benchmark.Effect.{Exception, application, undefined, M, pure, throw, ◌>>=◌, ◌>>◌}
use ros2_pubsub_benchmark.Thrift.Protocol.{Protocol}
use ros2_pubsub_benchmark.Thrift.Protocol.Wire.{TType, MessageType}
use ros2_pubsub_benchmark.Thrift.Timing.{Timing}
use ros2_pubsub_benchmark.Thrift.Structs.{Presult, new_presult, pargs_write, presult_read}

unfoldable pub is_exception : MessageType → Bool
is_exception MessageType.exception = true
is_exception _ = false

unfoldable pub is_reply : MessageType → Bool
is_reply MessageType.reply = true
is_reply _ = false

-- TApplicationException::MISSING_RESULT, and its message.
abbrev pub missing_result : Exception
missing_result = application 5 (bytes "bench failed: unknown result")

module _ (p : Protocol) where
  open p use {
    State, skip, read_message_begin, read_message_end, transport_read_end, write_message_begin,
    write_message_end, transport_write_end, transport_flush, read_exception,
  }

  unfoldable pub send_bench : Timing → M State (Unit {0})
  send_bench arg = do
    m ← write_message_begin (bytes "bench") MessageType.call (pos 0)
    n ← pargs_write p arg
    e ← write_message_end
    t ← transport_write_end
    transport_flush

  -- The rest of a message: `readMessageEnd` and the transport's `readEnd`.
  unfoldable pub end_message : M State (Unit {0})
  end_message = do e ← read_message_end; t ← transport_read_end; pure tt

  -- The body of each of the two branches for a message that is no reply to `bench`. Neither branch
  -- returns.
  unfoldable pub drop_message : M State (Unit {0})
  unfolding end_message
  drop_message = do n ← skip TType.struct; end_message

  -- `return _return;`, of a variable that may not have been assigned to.
  return_value : Presult → M State ℤ
  return_value result s = elim result.success [ some x ↦ pure x s | none ↦ undefined s ]

  unfoldable pub finish_bench : Presult → M State ℤ
  unfolding return_value
  finish_bench result = if result.isset then return_value result else throw missing_result

  unfoldable pub recv_bench : ℕ → M State ℤ
  unfolding is_exception is_reply end_message drop_message finish_bench
  recv_bench fuel = read_message_begin >>= λ header.
      if is_exception header.1 then (do x ← read_exception; end_message; throw x) else (do
        (if not (is_reply header.1) then drop_message else pure tt)
        (if not (same_bytes header.0 (bytes "bench")) then drop_message else pure tt)
        r ← presult_read p fuel new_presult
        end_message
        finish_bench r.1)

  unfoldable pub client_bench : ℕ → Timing → M State ℤ
  client_bench fuel arg = do send_bench arg; recv_bench fuel
