-- ===== src/Thrift/Processor.antt =====
-- BenchProcessor of thrift-bench/gen-cpp/Bench.h and Bench.cpp: the server's side of a call. The
-- state is the connection, which both protocols of the server wrap, with the world of the handler.
pub mod Ends
pub mod Replies
pub mod Answers
pub mod Hooks
use ros2_pubsub_benchmark.Prelude.{
  ℕ, Bool, true, List, [], ◌∷◌, ◌++◌, Option, none, some, if◌then◌else◌,
}
use ros2_pubsub_benchmark.Prelude.Int.{ℤ}
use ros2_pubsub_benchmark.Prelude.Bytes.{Bytes, bytes, same_bytes}
use ros2_pubsub_benchmark.Effect.{
  Exception, application, done, threw, exited, undefined, spinning, M, pure, ◌>>=◌, ◌>>◌,
}
use ros2_pubsub_benchmark.Thrift.Protocol.{Protocol}
use ros2_pubsub_benchmark.Thrift.Protocol.Wire.{TType, MessageType}
use ros2_pubsub_benchmark.Thrift.Zoom.{on_first, on_second}
use ros2_pubsub_benchmark.Thrift.Fields.{release}
use ros2_pubsub_benchmark.Thrift.Timing.{Timing}
use ros2_pubsub_benchmark.Thrift.Structs.{new_args, Result, args_read, result_write}

-- TProcessorEventHandler, of the library: the hooks that a server may install. Contexts are
-- numbers, and the text is the name of the method.
pub record EventHandler (W : Type 0) : Type 0 where
  pub get_context : Bytes → M W ℕ
  pub free_context : ℕ → Bytes → W → W
  pub pre_read : ℕ → Bytes → M W (Unit {0})
  pub post_read : ℕ → Bytes → ℕ → M W (Unit {0})
  pub handler_error : ℕ → Bytes → M W (Unit {0})
  pub pre_write : ℕ → Bytes → M W (Unit {0})
  pub post_write : ℕ → Bytes → ℕ → M W (Unit {0})

-- What the `catch` of process_bench goes on with.
pub data Attempt : Type 0 where
  returned : ℤ → Attempt
  caught : Exception → Attempt

abbrev pub attempt : {W : Type 0} → M W ℤ → M W Attempt
attempt m w = elim (m w) [
  | done x w' ↦ done (returned x) w'
  | threw e w' ↦ done (caught e) w'
  | exited w' ↦ exited w'
  | undefined w' ↦ undefined w'
  | spinning w' ↦ spinning w'
]

abbrev pub full_name : Bytes
full_name = bytes "Bench.bench"

-- TApplicationException::UNKNOWN_METHOD, and its message.
abbrev pub unknown_method : Bytes → Exception
unknown_method fname = application 1 (bytes "Invalid method name: '" ++ fname ++ bytes "'")

module _ (p : Protocol) where
  open p use {
    State, skip, read_message_end, transport_read_end, write_message_begin, write_message_end,
    transport_write_end, transport_flush, write_exception,
  }

  -- An answer that reports an exception.
  unfoldable pub answer_exception : Bytes → ℤ → Exception → M State (Unit {0})
  answer_exception fname seqid x = do
    m ← write_message_begin fname MessageType.exception seqid
    n ← write_exception x
    e ← write_message_end
    t ← transport_write_end
    transport_flush

  unfoldable pub answer_result : ℤ → Result → M State ℕ
  answer_result seqid result = do
    m ← write_message_begin (bytes "bench") MessageType.reply seqid
    n ← result_write p result
    e ← write_message_end
    t ← transport_write_end
    transport_flush >> pure t

  -- The answer to a call of a method that is not in the map.
  unfoldable pub reject_call : Bytes → ℤ → M State Bool
  unfolding answer_exception
  reject_call fname seqid = do
    n ← skip TType.struct
    e ← read_message_end
    t ← transport_read_end
    answer_exception fname seqid (unknown_method fname) >> pure true

-- `what` is std::exception::what(), `iface` the handler's bench.
module _ (p : Protocol) {W : Type 0} (what : Exception → Bytes) (events : Option (EventHandler W))
    (iface : Timing → M W ℤ) where
  open p use {State, read_message_end, transport_read_end}

  -- `if (this->eventHandler_.get() != nullptr) { … }`.
  unfoldable pub notify : (EventHandler W → M W (Unit {0})) → M (State × W) (Unit {0})
  notify hook = on_second (elim events [ some h ↦ hook h | none ↦ pure tt ])

  get_context : M (State × W) ℕ
  get_context = on_second (elim events [ some h ↦ h.get_context full_name | none ↦ pure 0 ])

  -- TProcessorContextFreer's destructor.
  free_context : ℕ → State × W → State × W
  free_context ctx (s, w) = elim events [
    | some h ↦ (s, h.free_context ctx full_name w)
    | none ↦ (s, w)
  ]

  -- The part behind the call of the handler: the `catch`, or the reply.
  unfoldable pub answer : ℕ → ℤ → Attempt → M (State × W) (Unit {0})
  unfolding notify answer_exception answer_result
  answer ctx seqid (caught e) = do
    notify (λ h. h.handler_error ctx full_name)
    on_first (answer_exception p (bytes "bench") seqid (application 0 (what e)))
  answer ctx seqid (returned x) = do
    notify (λ h. h.pre_write ctx full_name)
    t ← on_first (answer_result p seqid (record { success = x; isset = true }))
    notify (λ h. h.post_write ctx full_name t)

  -- The body under the context freer.
  unfoldable pub process_body : ℕ → ℤ → ℕ → M (State × W) (Unit {0})
  unfolding notify answer
  process_body fuel seqid ctx = do
    notify (λ h. h.pre_read ctx full_name)
    r ← on_first (args_read p fuel new_args)
    e ← on_first read_message_end
    n ← on_first transport_read_end
    notify (λ h. h.post_read ctx full_name n)
    a ← on_second (attempt (iface r.1.arg))
    answer ctx seqid a

  unfoldable pub process_bench : ℕ → ℤ → M (State × W) (Unit {0})
  unfolding get_context free_context process_body
  process_bench fuel seqid =
      get_context >>= λ ctx s. release (free_context ctx) (process_body fuel seqid ctx s)

  -- processMap_ after the constructor: the one method, under its name.
  process_map : List (Bytes × (ℕ → ℤ → M (State × W) (Unit {0})))
  unfolding process_bench
  process_map = (bytes "bench", process_bench) ∷ []

  find :
      Bytes
      → List (Bytes × (ℕ → ℤ → M (State × W) (Unit {0})))
      → Option (ℕ → ℤ → M (State × W) (Unit {0}))
  find fname [] = none
  find fname ((name, f) ∷ rest) = if same_bytes name fname then some f else find fname rest

  unfoldable pub dispatch_call : ℕ → Bytes → ℤ → M (State × W) Bool
  unfolding process_map find reject_call
  dispatch_call fuel fname seqid = elim (find fname process_map) [
    | none ↦ on_first (reject_call p fname seqid)
    | some f ↦ (f fuel seqid >> pure true)
  ]
