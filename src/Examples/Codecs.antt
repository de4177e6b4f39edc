-- ===== src/Examples/Codecs.antt =====
-- The codecs on messages with fields out of order, of an unknown number, and of a wrong type.
use ros2_pubsub_benchmark.Prelude.{◌≡◌, refl, true, List, [], ◌∷◌, ◌++◌, arith}
use ros2_pubsub_benchmark.Prelude.Int.{pos, negsuc}
use ros2_pubsub_benchmark.Prelude.Bytes.{bytes}
use ros2_pubsub_benchmark.Effect.{done}
use ros2_pubsub_benchmark.Thrift.Protocol.Wire.{
  Token, Value, Fields, end, field, View, fields_tokens, total, weigh, add_u32,
}
use ros2_pubsub_benchmark.Thrift.Protocol.Machine.{token_machine, token_machine-Laws}
use ros2_pubsub_benchmark.Thrift.Protocol.Rules.{Runs}
use ros2_pubsub_benchmark.Thrift.Fields.{tracked_output, add_all}
use ros2_pubsub_benchmark.Thrift.Timing.{Timing, new_timing, timing_read, timing_write}
use ros2_pubsub_benchmark.Thrift.Timing.Codec.{
  timing_read-Runs, timing_read-timing_write, timing_fields, all_set,
}
use ros2_pubsub_benchmark.Thrift.Structs.{new_args, args_read}
use ros2_pubsub_benchmark.Thrift.Structs.Codec.{args_read-Runs}
use ros2_pubsub_benchmark.Thrift.Remote.Transparent.{idle}
use ros2_pubsub_benchmark.Examples.{sample_timing}

abbrev odd_fields : Fields
odd_fields = field (pos 3) (Value.text (bytes "x")) (
    field (pos 9) (Value.struct (field (pos 1) (Value.i64 (pos 4)) end)) (
      field (pos 1) (Value.text (bytes "y"))
        (field (pos 2) (Value.i64 (negsuc 4)) (field (pos 1) (Value.i64 (pos 8)) end))))

abbrev odd_call : Fields
odd_call = field (pos 2) (Value.raw 8 1) (field (pos 1) (Value.struct odd_fields) end)

abbrev odd_timing : Timing
odd_timing = record { msgid = pos 8; nanosec = negsuc 4; source = bytes "x"; isset = all_set }

abbrev holding : List Token → View
holding ts = record idle { incoming = ts }

abbrev written : List Token → View
written ts = record idle { outgoing = ts }

timing_read-Runs_example :
    Runs {V = View}
      (λ s. s)
      (timing_read token_machine 6 new_timing)
      (holding (fields_tokens odd_fields ++ Token.stop ∷ []))
      (54, odd_timing)
      (holding (Token.stop ∷ []))
unfolding weigh total
timing_read-Runs_example =
    timing_read-Runs token_machine token_machine-Laws odd_fields 6 (Token.stop ∷ []) idle new_timing
      (omega arith) (omega arith)

timing_read-timing_write_example :
    (r' : View) × (timing_read token_machine 4 odd_timing
        (holding (fields_tokens (timing_fields sample_timing) ++ Token.stop ∷ []))
      ≡ done (36, record sample_timing { isset = all_set }) r')
    × (r' ≡ holding (Token.stop ∷ []))
unfolding weigh timing_write tracked_output add_all add_u32 total
timing_read-timing_write_example =
    timing_read-timing_write token_machine token_machine-Laws sample_timing odd_timing idle
      (written (fields_tokens (timing_fields sample_timing)))
      (holding (fields_tokens (timing_fields sample_timing) ++ Token.stop ∷ [])) 36 4
      (Token.stop ∷ []) refl (omega arith) refl refl (omega arith) (omega arith)

args_read-Runs_example :
    Runs {V = View}
      (λ s. s)
      (args_read token_machine 7 new_args)
      (holding (fields_tokens odd_call))
      (65, record { arg = odd_timing; isset = true })
      idle
unfolding weigh total
args_read-Runs_example =
    args_read-Runs token_machine token_machine-Laws odd_call 7 [] idle new_args (omega arith)
      (omega arith)
