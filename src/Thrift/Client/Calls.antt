-- ===== src/Thrift/Client/Calls.antt =====
-- What BenchClient puts on the wire, and what it makes of an answer.
use ros2_pubsub_benchmark.Prelude.{
  ℕ, suc, ◌+◌, ◌≤◌, ◌<◌, ◌≡◌, refl, List, [], ◌∷◌, ◌++◌, append_assoc, true, some,
}
use ros2_pubsub_benchmark.Prelude.Int.{ℤ, pos}
use ros2_pubsub_benchmark.Prelude.Bytes.{bytes, same_bytes}
use ros2_pubsub_benchmark.Effect.{Exception}
use ros2_pubsub_benchmark.Thrift.Protocol.{Protocol, Laws}
use ros2_pubsub_benchmark.Thrift.Protocol.Rules.{
  Runs, Runs-bind, Runs-pure, Runs-eq, Throws, Throws-bind,
}
use ros2_pubsub_benchmark.Thrift.Protocol.Wire.{
  MessageType, Token, Fields, View, fields_tokens, fields_height, fields_width,
}
use ros2_pubsub_benchmark.Thrift.Fields.Loop.{store_all}
use ros2_pubsub_benchmark.Thrift.Timing.{Timing}
use ros2_pubsub_benchmark.Thrift.Structs.{new_presult}
use ros2_pubsub_benchmark.Thrift.Structs.Codec.{store_presult, presult_read-Runs}
use ros2_pubsub_benchmark.Thrift.Structs.Writes.{args_fields, pargs_write-Runs}
use ros2_pubsub_benchmark.Thrift.Client.{send_bench, end_message, recv_bench}

-- A call on the wire: the header and the arguments.
abbrev pub call_tokens : Timing → List Token
call_tokens t =
    Token.message (bytes "bench") MessageType.call (pos 0) ∷ fields_tokens (args_fields t)

module _ (p : Protocol) (l : Laws p) where
  open p use {State}
  open l use {
    view, limit, read_message_begin_runs, read_message_end_runs, transport_read_end_runs,
    write_message_begin_runs, write_message_end_runs, transport_write_end_runs,
    transport_flush_runs, read_exception_runs,
  }

  -- If the nesting fits, send_bench writes one call of `bench` with sequence number 0 and the
  -- timing as its argument, and flushes it behind what was waiting.
  pub send_bench-Runs :
      (v : View) (t : Timing)
      → suc v.output_depth < limit
      → Runs view
          (send_bench p t)
          v
          tt
          (record v { outgoing = []; sent = v.sent ++ (v.outgoing ++ call_tokens t) })
  unfolding send_bench
  send_bench-Runs v t fits =
      Runs-eq
        (Runs-bind _ (write_message_begin_runs _ _ _ _) (
          Runs-bind _ (pargs_write-Runs p l _ t fits) (
            Runs-bind _ (write_message_end_runs _)
              (Runs-bind _ (transport_write_end_runs _).1 (transport_flush_runs _)))))
        refl (simp append_assoc)

  pub end_message-Runs : (v : View) → Runs view (end_message p) v tt v
  unfolding end_message
  end_message-Runs v =
      Runs-bind _ (read_message_end_runs v)
        (Runs-bind _ (transport_read_end_runs v).1 (Runs-pure _ _))

  module _ (v : View) (fs : Fields) (fuel : ℕ) (seqid : ℤ) (ts : List Token)
      (enough : fields_width fs < fuel)
      (fits : v.input_depth + suc (fields_height fs) ≤ limit) where
    -- If fuel and nesting suffice, and the success fields of a reply to `bench` leave the result
    -- set to x, recv_bench takes the reply off the wire to its end and returns x, whatever the
    -- reply's sequence number.
    pub recv_bench-returned :
        (x : ℤ)
        → store_all store_presult fs new_presult ≡ record { success = some x; isset = true }
        → Runs view
            (recv_bench p fuel)
            (record v {
              incoming =
                  Token.message (bytes "bench") MessageType.reply seqid ∷ (fields_tokens fs ++ ts);
            })
            x
            (record v { incoming = ts })
    unfolding recv_bench same_bytes
    recv_bench-returned x e = Runs-bind _ (read_message_begin_runs v _ _ _ _) (
        Runs-bind _ (presult_read-Runs p l fs fuel ts v new_presult enough fits)
          (rw e (Runs-bind _ (end_message-Runs _) (Runs-pure _ _))))

  -- recv_bench takes an exception message off the wire, whatever its sequence number, and throws
  -- the exception that it carries.
  pub recv_bench-threw :
      (v : View) (fuel : ℕ) (seqid : ℤ) (x : Exception) (ts : List Token)
      → Throws view
          (recv_bench p fuel)
          (record v {
            incoming =
                Token.message (bytes "bench") MessageType.exception seqid ∷ Token.fault x ∷ ts;
          })
          x
          (record v { incoming = ts })
  unfolding recv_bench
  recv_bench-threw v fuel seqid x ts = Throws-bind _ (read_message_begin_runs v _ _ _ _) (
      Throws-bind _ (read_exception_runs v _ _)
        (Throws-bind _ (end_message-Runs _) (record { run = λ s h. (s, refl, h) })))
