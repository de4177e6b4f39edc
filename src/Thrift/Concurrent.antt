-- ===== src/Thrift/Concurrent.antt =====
-- BenchConcurrentClient of thrift-bench/gen-cpp/Bench.h and Bench.cpp: many threads call through
-- one connection. What keeps the threads apart is the Thrift library's TConcurrentClientSyncInfo,
-- a parameter. The shared state is the connection with the state of that object.
pub mod Rounds
pub mod Sending
pub mod Receiving
pub mod Threads
use ros2_pubsub_benchmark.Prelude.{
  ℕ, zero, suc, Bool, true, false, not, Option, none, some, if◌then◌else◌,
}
use ros2_pubsub_benchmark.Prelude.Int.{ℤ}
use ros2_pubsub_benchmark.Prelude.Bytes.{Bytes, bytes, same_bytes}
use ros2_pubsub_benchmark.Effect.{
  Exception, protocol, Ending, done, threw, exited, undefined, spinning, M, pure, throw, ◌>>=◌,
  ◌>>◌,
}
use ros2_pubsub_benchmark.Thrift.Protocol.{Protocol}
use ros2_pubsub_benchmark.Thrift.Protocol.Wire.{MessageType}
use ros2_pubsub_benchmark.Thrift.Zoom.{on_first, on_second}
use ros2_pubsub_benchmark.Thrift.Timing.{Timing, eq_int64}
use ros2_pubsub_benchmark.Thrift.Structs.{new_presult, pargs_write, presult_read}
use ros2_pubsub_benchmark.Thrift.Client.{
  is_exception, is_reply, end_message, drop_message, finish_bench,
}

-- The name, the type and the sequence number of a message.
abbrev pub Header : Type 0
Header = Bytes × MessageType × ℤ

-- TConcurrentClientSyncInfo with its sentries. `end_send` and `end_recv` are the destructors of the
-- sentries, which are told whether `commit` has been called. While a thread waits for work, others
-- use the connection.
pub record Sync (p : Protocol) : Type 1 where
  pub State : Type 0
  pub generate_seqid : M State ℤ
  pub begin_send : M State (Unit {0})
  pub end_send : Bool → State → State
  pub begin_recv : ℤ → M State (Unit {0})
  pub end_recv : ℤ → Bool → State → State
  pub get_pending : M State (Option Header)
  pub update_pending : Header → M State (Unit {0})
  pub wait_for_work : ℤ → M (p.State × State) (Unit {0})

-- What a thread has received for itself: both are committed.
pub data Outcome : Type 0 where
  answer : ℤ → Outcome
  failure : Exception → Outcome

module _ (p : Protocol) where
  open p use {
    State, read_message_begin, read_exception, write_message_begin, write_message_end,
    transport_write_end, transport_flush,
  }

  -- The part of recv_bench for a message with the thread's own sequence number.
  unfoldable pub own_message : ℕ → Header → M State (Option Outcome)
  unfolding is_exception is_reply end_message drop_message finish_bench
  own_message fuel header =
      if is_exception header.1
      then (do x ← read_exception; end_message p; pure (some (failure x)))
      else (do
        (if not (is_reply header.1) then drop_message p else pure tt)
        (if not (same_bytes header.0 (bytes "bench"))
            then (drop_message p >> throw (protocol 1))
            else pure tt)
        r ← presult_read p fuel new_presult
        end_message p
        x ← finish_bench p r.1
        pure (some (answer x)))

  -- What send_bench writes and flushes under its sentry.
  unfoldable pub send_call : ℤ → Timing → M State (Unit {0})
  send_call cseqid arg = do
    m ← write_message_begin (bytes "bench") MessageType.call cseqid
    n ← pargs_write p arg
    e ← write_message_end
    t ← transport_write_end
    transport_flush

module _ (p : Protocol) (y : Sync p) where
  open p use {read_message_begin}

  abbrev pub Shared : Type 0
  Shared = p.State × y.State

  -- A sentry's destructor after a send, with `commit` called behind the last statement.
  abbrev pub settle_send : Ending Shared (Unit {0}) → Ending Shared (Unit {0})
  settle_send (done a (c, s)) = done a (c, y.end_send true s)
  settle_send (threw e (c, s)) = threw e (c, y.end_send false s)
  settle_send (exited s) = exited s
  settle_send (undefined s) = undefined s
  settle_send (spinning s) = spinning s

  unfoldable pub concurrent_send : Timing → M Shared ℤ
  unfolding send_call
  concurrent_send arg = do
    cseqid ← on_second y.generate_seqid
    on_second y.begin_send
    (λ s. settle_send (on_first (send_call p cseqid arg) s))
    pure cseqid

  -- A header goes to the thread that it is for; one for another thread is kept for that thread.
  unfoldable pub handle_message : ℕ → ℤ → Header → M Shared (Option Outcome)
  unfolding own_message eq_int64
  handle_message fuel seqid header =
      if eq_int64 seqid header.2
      then on_first (own_message p fuel header)
      else (on_second (y.update_pending header) >> pure none)

  -- One round of the loop of recv_bench, up to the wait: the thread's own message, if it was there.
  unfoldable pub recv_round : ℕ → ℤ → M Shared (Option Outcome)
  unfolding handle_message
  recv_round fuel seqid = do
    found ← on_second y.get_pending
    header ← (elim found [ some h ↦ pure h | none ↦ on_first read_message_begin ])
    handle_message fuel seqid header

  -- The loop, with at most `rounds` rounds.
  unfoldable pub recv_loop : ℕ → ℕ → ℤ → M Shared Outcome
  unfolding recv_round
  recv_loop zero fuel seqid = λ s. spinning s
  recv_loop (suc rounds) fuel seqid = recv_round fuel seqid >>= λ r. elim r [
    | some outcome ↦ pure outcome
    | none ↦ y.wait_for_work seqid >> recv_loop rounds fuel seqid
  ]

  -- The sentry's destructor after a receive, and the return or the exception.
  abbrev pub settle_recv : ℤ → Ending Shared Outcome → Ending Shared ℤ
  settle_recv seqid (done (answer x) (c, s)) = done x (c, y.end_recv seqid true s)
  settle_recv seqid (done (failure e) (c, s)) = threw e (c, y.end_recv seqid true s)
  settle_recv seqid (threw e (c, s)) = threw e (c, y.end_recv seqid false s)
  settle_recv seqid (exited s) = exited s
  settle_recv seqid (undefined s) = undefined s
  settle_recv seqid (spinning s) = spinning s

  unfoldable pub concurrent_recv : ℕ → ℕ → ℤ → M Shared ℤ
  unfolding recv_loop
  concurrent_recv rounds fuel seqid =
      on_second (y.begin_recv seqid) >>= λ _ s. settle_recv seqid (recv_loop rounds fuel seqid s)

  -- BenchConcurrentClient::bench.
  unfoldable pub concurrent_bench : ℕ → ℕ → Timing → M Shared ℤ
  unfolding concurrent_send concurrent_recv
  concurrent_bench rounds fuel arg =
      concurrent_send arg >>= λ seqid. concurrent_recv rounds fuel seqid
