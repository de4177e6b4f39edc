-- ===== src/Thrift/Processor/Hooks.antt =====
-- An event handler that keeps a record of its calls beside the handler's world.
pub mod Order
use ros2_pubsub_benchmark.Prelude.{List, [], ◌∷◌, ◌++◌}
use ros2_pubsub_benchmark.Prelude.Int.{ℤ}
use ros2_pubsub_benchmark.Prelude.Bytes.{Bytes, bytes}
use ros2_pubsub_benchmark.Effect.{Exception, application, done, M, ◌>>=◌, ◌>>◌}
use ros2_pubsub_benchmark.Thrift.Protocol.Wire.{Token}
use ros2_pubsub_benchmark.Thrift.Zoom.{on_second}
use ros2_pubsub_benchmark.Thrift.Timing.{Timing}
use ros2_pubsub_benchmark.Thrift.Processor.{EventHandler, Attempt, returned, caught}
use ros2_pubsub_benchmark.Thrift.Processor.Replies.{reply_tokens, fault_tokens}

pub data Event : Type 0 where
  context : Event
  before_read : Event
  after_read : Event
  handled : Event
  before_write : Event
  after_write : Event
  failed : Event
  freed : Event

abbrev pub Log : Type 0
Log = List Event

module _ {W : Type 0} where
  abbrev pub note : Event → M (Log × W) (Unit {0})
  note e (log, w) = done tt (log ++ e ∷ [], w)

  -- Every hook keeps a record of its call.
  abbrev pub recorder : EventHandler (Log × W)
  recorder = record {
    get_context = λ name. note context >>= λ _ s. done 1 s;
    free_context = λ ctx name s. (s.0 ++ freed ∷ [], s.1);
    pre_read = λ ctx name. note before_read;
    post_read = λ ctx name n. note after_read;
    handler_error = λ ctx name. note failed;
    pre_write = λ ctx name. note before_write;
    post_write = λ ctx name n. note after_write;
  }

  -- A handler whose call is recorded.
  abbrev pub recorded : (Timing → M W ℤ) → Timing → M (Log × W) ℤ
  recorded iface arg = note handled >> on_second (iface arg)

-- What a call leaves in the record behind the handler, and on the wire.
abbrev pub events_after : Attempt → Log
events_after (returned x) = before_write ∷ after_write ∷ freed ∷ []
events_after (caught e) = failed ∷ freed ∷ []

abbrev pub attempt_tokens : (Exception → Bytes) → ℤ → Attempt → List Token
attempt_tokens what seqid (returned x) = reply_tokens seqid x
attempt_tokens what seqid (caught e) = fault_tokens (bytes "bench") seqid (application 0 (what e))

abbrev pub events_of : Attempt → Log
events_of a = context ∷ before_read ∷ after_read ∷ handled ∷ events_after a
