-- ===== src/Examples/Calls.antt =====
-- Calls between a client and a server.
use ros2_pubsub_benchmark.Prelude.{◌≡◌, refl, true, List, [], ◌∷◌, arith, none}
use ros2_pubsub_benchmark.Prelude.Int.{ℤ, pos}
use ros2_pubsub_benchmark.Prelude.Bytes.{bytes, same_bytes}
use ros2_pubsub_benchmark.Effect.{application, foreign, M, done, threw, exited}
use ros2_pubsub_benchmark.Thrift.Protocol.Wire.{MessageType, Token, Fields, View, fields_tokens}
use ros2_pubsub_benchmark.Thrift.Protocol.Machine.{token_machine, token_machine-Laws}
use ros2_pubsub_benchmark.Thrift.Protocol.Rules.{Runs, Throws, Exits}
use ros2_pubsub_benchmark.Thrift.Timing.{Timing}
use ros2_pubsub_benchmark.Thrift.Structs.Writes.{args_fields}
use ros2_pubsub_benchmark.Thrift.Processor.{dispatch_call, unknown_method}
use ros2_pubsub_benchmark.Thrift.Processor.Answers.{
  dispatch_call-returned, dispatch_call-caught, dispatch_call-unknown,
}
use ros2_pubsub_benchmark.Thrift.Processor.Replies.{reply_tokens, fault_tokens}
use ros2_pubsub_benchmark.Thrift.Multiface.{multi_bench, in_turn, multi_bench-in_turn}
use ros2_pubsub_benchmark.Thrift.Remote.{remote_bench}
use ros2_pubsub_benchmark.Thrift.Remote.Transparent.{
  idle, remote_bench-returned, remote_bench-threw, remote_bench-exited,
}
use ros2_pubsub_benchmark.Examples.{sample_timing, token_network, text_of}

-- Handlers whose world is the list of the numbers that they have seen.
abbrev recorder : Timing → M (List ℤ) ℤ
recorder arg seen = done (pos 9) (arg.msgid ∷ seen)

abbrev thrower : Timing → M (List ℤ) ℤ
thrower arg seen = threw (foreign 3) (arg.msgid ∷ seen)

abbrev leaver : Timing → M (List ℤ) ℤ
leaver arg seen = exited (arg.msgid ∷ seen)

abbrev seen_world : List ℤ → List ℤ
seen_world seen = seen

abbrev incoming_call : View
incoming_call = record idle { incoming = fields_tokens (args_fields sample_timing) }

abbrev reply_of : Fields → View
reply_of fs = record idle {
  incoming = Token.message (bytes "bench") MessageType.reply (pos 0) ∷ fields_tokens fs;
}

dispatch_call-returned_example :
    Runs {V = View × List ℤ}
      (λ s. s)
      (dispatch_call token_machine text_of none recorder 4 (bytes "bench") (pos 2))
      (incoming_call, [])
      true
      (record idle { sent = reply_tokens (pos 2) (pos 9) }, pos 7 ∷ [])
dispatch_call-returned_example =
    dispatch_call-returned token_machine token_machine-Laws seen_world text_of recorder idle
      (args_fields sample_timing) 4 (pos 2) [] (omega arith) (omega arith) (pos 9)
      (record { run = λ s e. (pos 7 ∷ s, refl, rw e refl) })

dispatch_call-caught_example :
    Runs {V = View × List ℤ}
      (λ s. s)
      (dispatch_call token_machine text_of none thrower 4 (bytes "bench") (pos 2))
      (incoming_call, [])
      true
      (
        record idle {
          sent = fault_tokens (bytes "bench") (pos 2) (application 0 (bytes "std::exception"));
        },
        pos 7 ∷ [],
      )
dispatch_call-caught_example =
    dispatch_call-caught token_machine token_machine-Laws seen_world text_of thrower idle
      (args_fields sample_timing) 4 (pos 2) [] (omega arith) (omega arith) (foreign 3)
      (record { run = λ s e. (pos 7 ∷ s, refl, rw e refl) })

dispatch_call-unknown_example :
    Runs {V = View × List ℤ}
      (λ s. s)
      (dispatch_call token_machine text_of none recorder 4 (bytes "ping") (pos 2))
      (incoming_call, [])
      true
      (
        record idle { sent = fault_tokens (bytes "ping") (pos 2) (unknown_method (bytes "ping")) },
        [],
      )
unfolding same_bytes
dispatch_call-unknown_example =
    dispatch_call-unknown token_machine token_machine-Laws seen_world text_of recorder idle
      (args_fields sample_timing) 4 (pos 2) [] (bytes "ping") (omega arith) refl

remote_bench-returned_example :
    Runs {V = View × (View × List ℤ)}
      (λ s. s)
      (remote_bench token_machine token_machine-Laws token_network text_of 4 recorder sample_timing)
      (idle, (idle, []))
      (pos 9)
      (idle, (idle, pos 7 ∷ []))
remote_bench-returned_example =
    remote_bench-returned token_machine token_machine-Laws token_network seen_world text_of 4
      recorder sample_timing (omega arith) (omega arith) (pos 9)
      (record { run = λ s e. (pos 7 ∷ s, refl, rw e refl) })

remote_bench-threw_example :
    Throws {V = View × (View × List ℤ)}
      (λ s. s)
      (remote_bench token_machine token_machine-Laws token_network text_of 4 thrower sample_timing)
      (idle, (idle, []))
      (application 0 (bytes "std::exception"))
      (idle, (idle, pos 7 ∷ []))
remote_bench-threw_example =
    remote_bench-threw token_machine token_machine-Laws token_network seen_world text_of 4 thrower
      sample_timing (omega arith) (omega arith) (foreign 3)
      (record { run = λ s e. (pos 7 ∷ s, refl, rw e refl) })

remote_bench-exited_example :
    Exits {V = View × (View × List ℤ)}
      (λ s. s)
      (remote_bench token_machine token_machine-Laws token_network text_of 4 leaver sample_timing)
      (idle, (idle, []))
      (idle, (idle, pos 7 ∷ []))
remote_bench-exited_example =
    remote_bench-exited token_machine token_machine-Laws token_network seen_world text_of 4 leaver
      sample_timing (omega arith) (omega arith)
      (record { run = λ s e. (pos 7 ∷ s, refl, rw e refl) })

multi_bench-in_turn_example :
    multi_bench (recorder ∷ recorder ∷ thrower ∷ []) sample_timing []
    ≡ in_turn recorder (recorder ∷ thrower ∷ []) sample_timing []
multi_bench-in_turn_example =
    multi_bench-in_turn recorder (recorder ∷ thrower ∷ []) sample_timing [] (omega arith)
