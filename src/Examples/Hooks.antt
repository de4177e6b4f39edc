-- ===== src/Examples/Hooks.antt =====
-- A call whose handler throws, under an event handler.
use ros2_pubsub_benchmark.Prelude.{refl, List, [], ◌∷◌, true, some, arith}
use ros2_pubsub_benchmark.Prelude.Int.{ℤ, pos}
use ros2_pubsub_benchmark.Prelude.Bytes.{bytes}
use ros2_pubsub_benchmark.Effect.{foreign, M, threw}
use ros2_pubsub_benchmark.Thrift.Protocol.Wire.{fields_tokens}
use ros2_pubsub_benchmark.Thrift.Protocol.Machine.{token_machine, token_machine-Laws}
use ros2_pubsub_benchmark.Thrift.Protocol.Rules.{Runs}
use ros2_pubsub_benchmark.Thrift.Timing.{Timing}
use ros2_pubsub_benchmark.Thrift.Structs.Writes.{args_fields}
use ros2_pubsub_benchmark.Thrift.Processor.{caught, dispatch_call}
use ros2_pubsub_benchmark.Thrift.Processor.Replies.{answered}
use ros2_pubsub_benchmark.Thrift.Processor.Hooks.{
  context, before_read, after_read, handled, failed, freed, recorder, recorded, attempt_tokens,
}
use ros2_pubsub_benchmark.Thrift.Processor.Hooks.Order.{seen_of, dispatch_call-hooks}
use ros2_pubsub_benchmark.Thrift.Remote.Transparent.{idle}
use ros2_pubsub_benchmark.Examples.{sample_timing, text_of}

abbrev refuser : Timing → M (List ℤ) ℤ
refuser arg seen = threw (foreign 3) (arg.msgid ∷ seen)

abbrev whole : List ℤ → List ℤ
whole seen = seen

dispatch_call-hooks_example :
    Runs
      (seen_of token_machine token_machine-Laws whole)
      (dispatch_call token_machine text_of
        (some recorder)
        (recorded refuser)
        4
        (bytes "bench")
        (pos 2))
      (record idle { incoming = fields_tokens (args_fields sample_timing) }, ([], []))
      true
      (
        answered idle (attempt_tokens text_of (pos 2) (caught (foreign 3))),
        (context ∷ before_read ∷ after_read ∷ handled ∷ failed ∷ freed ∷ [], pos 7 ∷ []),
      )
dispatch_call-hooks_example =
    dispatch_call-hooks token_machine token_machine-Laws whole text_of refuser idle
      (args_fields sample_timing) 4 (pos 2) [] (caught (foreign 3)) (omega arith) (omega arith)
      (record { run = λ s e. (pos 7 ∷ s, refl, rw e refl) }) []
