-- ===== src/Thrift/Client/Ends.antt =====
-- BenchClient::bench ends, whatever is on the wire.
use ros2_pubsub_benchmark.Prelude.{ℕ, ◌≤◌, not, inl, inr, Bool-cases, arith}
use ros2_pubsub_benchmark.Prelude.Int.{ℤ}
use ros2_pubsub_benchmark.Prelude.Bytes.{Bytes, bytes, same_bytes}
use ros2_pubsub_benchmark.Effect.{Exception, M, pure, ◌>>=◌}
use ros2_pubsub_benchmark.Thrift.Protocol.{Protocol}
use ros2_pubsub_benchmark.Thrift.Protocol.Wire.{TType, MessageType}
use ros2_pubsub_benchmark.Thrift.Settled.{
  Uses, Settled-release, Ends, Ends-of_Uses, Ends-pure, Ends-throw, Ends-bind, Ends-if,
}
use ros2_pubsub_benchmark.Thrift.Fields.{tracked_output}
use ros2_pubsub_benchmark.Thrift.Fields.Ends.{Consumes}
use ros2_pubsub_benchmark.Thrift.Timing.{Timing, timing_write}
use ros2_pubsub_benchmark.Thrift.Structs.{Presult, new_presult, Result, pargs_write, result_write}
use ros2_pubsub_benchmark.Thrift.Structs.Ends.{Assigned, presult_read-Reads}
use ros2_pubsub_benchmark.Thrift.Client.{
  is_exception, is_reply, missing_result, send_bench, end_message, drop_message, finish_bench,
  recv_bench, client_bench,
}

-- The other operations of a protocol return or throw too, and leave the input as long as it is.
pub record Answers (p : Protocol) (c : Consumes p) : Type 0 where
  pub read_message_begin_settles : Uses c.remaining p.read_message_begin
  pub read_message_end_settles : Uses c.remaining p.read_message_end
  pub transport_read_end_settles : Uses c.remaining p.transport_read_end
  pub read_exception_settles : Uses c.remaining p.read_exception
  pub enter_output_settles : Uses c.remaining p.enter_output
  pub leave_output_keeps : (s : p.State) → c.remaining (p.leave_output s) ≤ c.remaining s
  pub write_struct_begin_settles : (name : Bytes) → Uses c.remaining (p.write_struct_begin name)
  pub write_struct_end_settles : Uses c.remaining p.write_struct_end
  pub write_field_begin_settles :
      (name : Bytes) (t : TType) (id : ℤ) → Uses c.remaining (p.write_field_begin name t id)
  pub write_field_end_settles : Uses c.remaining p.write_field_end
  pub write_field_stop_settles : Uses c.remaining p.write_field_stop
  pub write_i64_settles : (x : ℤ) → Uses c.remaining (p.write_i64 x)
  pub write_string_settles : (text : Bytes) → Uses c.remaining (p.write_string text)
  pub write_message_begin_settles :
      (name : Bytes) (t : MessageType) (seqid : ℤ)
      → Uses c.remaining (p.write_message_begin name t seqid)
  pub write_message_end_settles : Uses c.remaining p.write_message_end
  pub transport_write_end_settles : Uses c.remaining p.transport_write_end
  pub transport_flush_settles : Uses c.remaining p.transport_flush
  pub write_exception_settles : (e : Exception) → Uses c.remaining (p.write_exception e)

module _ (p : Protocol) (c : Consumes p) (w : Answers p c) (fuel : ℕ) where
  open p use {State}
  open c use {remaining}

  -- A call of the protocol that ends, with a value that meets Q.
  abbrev pub Talks : {A : Type 0} → (A → Type 0) → M State A → Type 0
  Talks Q m = Ends remaining ⊥ fuel Q m

  -- An operation of the protocol, and what goes on behind it.
  pub step :
      {A B : Type 0} {Q : B → Type 0} {m : M State A} (f : A → M State B)
      → Uses remaining m
      → ((a : A) → Talks Q (f a))
      → Talks Q (m >>= f)
  step f law k = Ends-bind remaining ⊥ fuel f (Ends-of_Uses remaining ⊥ fuel law) (λ a _. k a)

  pub talked : {A : Type 0} (a : A) → Talks (λ _. Unit {0}) (λ s. pure a s)
  talked a = Ends-pure remaining ⊥ fuel (λ _. Unit {0}) a tt

  tracked_output-Talks :
      {A : Type 0} {Q : A → Type 0} {body : M State A}
      → Talks Q body
      → Talks Q (tracked_output p body)
  unfolding tracked_output
  tracked_output-Talks h = step _ w.enter_output_settles (λ _. record {
    settles = λ s b e within.
        Settled-release p.leave_output
          (λ a s' q. (q.0, omega (arith, q.1, w.leave_output_keeps s'))) (h.settles s b e within);
  })

  timing_write-Talks : (this : Timing) → Talks (λ _. Unit {0}) (timing_write p this)
  unfolding timing_write
  timing_write-Talks this =
      let name = w.write_field_begin_settles in
      let end = w.write_field_end_settles in
      tracked_output-Talks (
        step _ (w.write_struct_begin_settles _) (λ n. step _ (name _ _ _) (λ a1.
          step _ (w.write_i64_settles _) (λ a2. step _ end (λ a3. step _ (name _ _ _) (λ b1.
            step _ (w.write_i64_settles _) (λ b2. step _ end (λ b3. step _ (name _ _ _) (λ c1.
              step _ (w.write_string_settles _) (λ c2. step _ end (λ c3.
                step _ w.write_field_stop_settles
                  (λ d1. step _ w.write_struct_end_settles (λ d2. talked _)))))))))))))

  pargs_write-Talks : (arg : Timing) → Talks (λ _. Unit {0}) (pargs_write p arg)
  unfolding pargs_write
  pargs_write-Talks arg = tracked_output-Talks (
      step _ (w.write_struct_begin_settles _) (λ n.
        step _ (w.write_field_begin_settles _ _ _) (λ a1.
          Ends-bind remaining ⊥ fuel _ (timing_write-Talks arg) (λ a2 _.
            step _ w.write_field_end_settles (λ a3.
              step _ w.write_field_stop_settles
                (λ d1. step _ w.write_struct_end_settles (λ d2. talked _)))))))

  pub result_write-Talks : (this : Result) → Talks (λ _. Unit {0}) (result_write p this)
  unfolding result_write
  result_write-Talks this = step _ (w.write_struct_begin_settles _) (λ n.
      Ends-bind remaining ⊥ fuel {Q = λ _. Unit {0}} _
        (Ends-if remaining ⊥ fuel this.isset
          (step _ (w.write_field_begin_settles _ _ _) (λ a1.
            step _ (w.write_i64_settles _)
              (λ a2. step _ w.write_field_end_settles (λ a3. talked _))))
          (talked _))
        (λ x _.
          step _ w.write_field_stop_settles
            (λ d1. step _ w.write_struct_end_settles (λ d2. talked _))))

  pub send_bench-Talks : (arg : Timing) → Talks (λ _. Unit {0}) (send_bench p arg)
  unfolding send_bench
  send_bench-Talks arg = step _ (w.write_message_begin_settles _ _ _) (λ m.
      Ends-bind remaining ⊥ fuel _ (pargs_write-Talks arg) (λ n _.
        step _ w.write_message_end_settles (λ e.
          step _ w.transport_write_end_settles
            (λ t. Ends-of_Uses remaining ⊥ fuel w.transport_flush_settles))))

  end_message-Talks : Talks (λ _. Unit {0}) (end_message p)
  unfolding end_message
  end_message-Talks =
      step _ w.read_message_end_settles (λ e. step _ w.transport_read_end_settles (λ t. talked tt))

  drop_message-Talks : Talks (λ _. Unit {0}) (drop_message p)
  unfolding drop_message
  drop_message-Talks = step _ (c.skip_settles TType.struct) (λ n. end_message-Talks)

  finish_bench-Talks : (r : Presult) → Assigned r → Talks (λ _. Unit {0}) (finish_bench p r)
  unfolding finish_bench
  finish_bench-Talks r assigned = elim (Bool-cases r.isset) [
    | inl set ↦ let (x, e) = assigned set in rw (set, e) (talked x)
    | inr unset ↦ rw unset (Ends-throw remaining ⊥ fuel (λ _. Unit {0}) missing_result)
  ]

  recv_bench-Talks : Talks (λ _. Unit {0}) (recv_bench p fuel)
  unfolding recv_bench
  recv_bench-Talks =
      let unset : Assigned new_presult = λ e. absurd (cc (e)) in
      step _ w.read_message_begin_settles (λ header.
        Ends-if remaining ⊥ fuel (is_exception header.1)
          (step _ w.read_exception_settles (λ x.
            Ends-bind remaining ⊥ fuel _ end_message-Talks
              (λ _ _. Ends-throw remaining ⊥ fuel (λ _. Unit {0}) x)))
          (Ends-bind remaining ⊥ fuel _
            (Ends-if remaining ⊥ fuel (not (is_reply header.1)) drop_message-Talks (talked tt))
            (λ _ _.
              Ends-bind remaining ⊥ fuel _
                (Ends-if remaining ⊥ fuel (not (same_bytes header.0 (bytes "bench")))
                  drop_message-Talks (talked tt))
                (λ _ _.
                  Ends-bind remaining ⊥ fuel _ (presult_read-Reads p c fuel new_presult unset)
                    (λ r assigned.
                      Ends-bind remaining ⊥ fuel _ end_message-Talks
                        (λ _ _. finish_bench-Talks r.1 assigned))))))

  -- If every operation of the protocol returns or throws, none adds to the input that is left, and
  -- a field's header takes at least one byte of it, then BenchClient::bench returns or throws on
  -- every input of fewer bytes than the fuel, a broken one included: its loops end, and the
  -- variable that is returned has been assigned to. When it returns, at most as much input is left
  -- as before.
  pub client_bench-Ends : (arg : Timing) → Talks (λ _. Unit {0}) (client_bench p fuel arg)
  unfolding client_bench
  client_bench-Ends arg =
      Ends-bind remaining ⊥ fuel _ (send_bench-Talks arg) (λ _ _. recv_bench-Talks)
