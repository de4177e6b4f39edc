-- ===== src/Thrift/Processor/Replies.antt =====
-- The answers of BenchProcessor on the wire.
use ros2_pubsub_benchmark.Prelude.{refl, List, [], ◌∷◌, ◌++◌, append_assoc, true}
use ros2_pubsub_benchmark.Prelude.Int.{ℤ}
use ros2_pubsub_benchmark.Prelude.Bytes.{Bytes, bytes}
use ros2_pubsub_benchmark.Effect.{Exception}
use ros2_pubsub_benchmark.Thrift.Protocol.{Protocol, Laws}
use ros2_pubsub_benchmark.Thrift.Protocol.Rules.{Runs, Runs-bind, Runs-pure, Runs-eq}
use ros2_pubsub_benchmark.Thrift.Protocol.Wire.{MessageType, Token, View, fields_tokens}
use ros2_pubsub_benchmark.Thrift.Structs.Writes.{result_fields, result_write-Runs}
use ros2_pubsub_benchmark.Thrift.Processor.{answer_exception, answer_result}

-- The two kinds of answer on the wire.
abbrev pub reply_tokens : ℤ → ℤ → List Token
reply_tokens seqid x =
    Token.message (bytes "bench") MessageType.reply seqid
    ∷ fields_tokens (result_fields (record { success = x; isset = true }))

abbrev pub fault_tokens : Bytes → ℤ → Exception → List Token
fault_tokens fname seqid x = Token.message fname MessageType.exception seqid ∷ Token.fault x ∷ []

-- The view of a connection on which an answer has gone out.
abbrev pub answered : View → List Token → View
answered v ts = record v { outgoing = []; sent = v.sent ++ (v.outgoing ++ ts) }

module _ (p : Protocol) (l : Laws p) where
  open p use {State}
  open l use {
    view, limit, skip_runs, read_message_end_runs, transport_read_end_runs,
    write_message_begin_runs, write_message_end_runs, transport_write_end_runs,
    transport_flush_runs, write_exception_runs,
  }

  pub answer_exception-Runs :
      (v : View) (fname : Bytes) (seqid : ℤ) (x : Exception)
      → Runs view (answer_exception p fname seqid x) v tt (answered v (fault_tokens fname seqid x))
  unfolding answer_exception
  answer_exception-Runs v fname seqid x =
      Runs-eq
        (Runs-bind _ (write_message_begin_runs _ _ _ _) (
          Runs-bind _ (write_exception_runs _ _) (
            Runs-bind _ (write_message_end_runs _)
              (Runs-bind _ (transport_write_end_runs _).1 (transport_flush_runs _)))))
        refl (simp append_assoc)

  pub answer_result-Runs :
      (v : View) (seqid x : ℤ)
      → Runs view
          (answer_result p seqid (record { success = x; isset = true }))
          v
          (transport_write_end_runs (record v { outgoing = v.outgoing ++ reply_tokens seqid x })).0
          (answered v (reply_tokens seqid x))
  unfolding answer_result
  answer_result-Runs v seqid x =
      Runs-eq
        (Runs-bind _ (write_message_begin_runs _ _ _ _) (
          Runs-bind _ (result_write-Runs p l _ (record { success = x; isset = true })) (
            Runs-bind _ (write_message_end_runs _) (
              Runs-bind _ (transport_write_end_runs _).1
                (Runs-bind _ (transport_flush_runs _) (Runs-pure _ _))))))
        (simp append_assoc) (simp append_assoc)
