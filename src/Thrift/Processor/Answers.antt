-- ===== src/Thrift/Processor/Answers.antt =====
-- What BenchProcessor answers, on every way that a call can go, for a server with no event handler
-- (thrift-bench/bench.cpp installs none).
use ros2_pubsub_benchmark.Prelude.{ℕ, suc, ◌+◌, ◌≤◌, ◌<◌, ◌≡◌, refl, List, ◌++◌, true, false, none}
use ros2_pubsub_benchmark.Prelude.Int.{ℤ}
use ros2_pubsub_benchmark.Prelude.Bytes.{Bytes, bytes, same_bytes}
use ros2_pubsub_benchmark.Effect.{Exception, application, M}
use ros2_pubsub_benchmark.Thrift.Protocol.{Protocol, Laws}
use ros2_pubsub_benchmark.Thrift.Protocol.Rules.{
  Runs, Runs-bind, Runs-pure, Throws, Exits, Exits-bind, Exits-first,
}
use ros2_pubsub_benchmark.Thrift.Protocol.Wire.{
  Token, Value, Fields, View, fields_tokens, fields_height, fields_width,
}
use ros2_pubsub_benchmark.Thrift.Zoom.{both, Runs-on_first, Runs-on_second, Exits-on_second}
use ros2_pubsub_benchmark.Thrift.Fields.Loop.{store_all}
use ros2_pubsub_benchmark.Thrift.Timing.{Timing}
use ros2_pubsub_benchmark.Thrift.Structs.{new_args}
use ros2_pubsub_benchmark.Thrift.Structs.Codec.{store_args, args_read-Runs}
use ros2_pubsub_benchmark.Thrift.Processor.{
  Attempt, returned, caught, attempt, answer, process_body, process_bench, unknown_method,
  dispatch_call,
}
use ros2_pubsub_benchmark.Thrift.Processor.Replies.{
  reply_tokens, fault_tokens, answered, answer_exception-Runs, answer_result-Runs,
}

-- The arguments that the fields of a call stand for.
abbrev pub argument : Fields → Timing
argument fs = (store_all store_args fs new_args).arg

module _ (p : Protocol) (l : Laws p) {W V : Type 0} (g : W → V) where
  open p use {State}
  open l use {view, limit, skip_runs, read_message_end_runs, transport_read_end_runs}

  -- A server's connection and its world, seen together.
  abbrev view_of : State × W → View × V
  view_of = both view g

  Runs-attempt :
      {m : M W ℤ} {w w' : V} (x : ℤ) → Runs g m w x w' → Runs g (attempt m) w (returned x) w'
  Runs-attempt x h = record {
    run = λ s e. let (s', r, e') = h.run s e in (s', (rw (r, attempt) refl), e');
  }

  Runs-attempt_caught :
      {m : M W ℤ} {w w' : V} (x : Exception)
      → Throws g m w x w'
      → Runs g (attempt m) w (caught x) w'
  Runs-attempt_caught x h = record {
    run = λ s e. let (s', r, e') = h.run s e in (s', (rw (r, attempt) refl), e');
  }

  Exits-attempt : {m : M W ℤ} {w w' : V} → Exits g m w w' → Exits g (attempt m) w w'
  Exits-attempt h = record {
    run = λ s e. let (s', r, e') = h.run s e in (s', (rw (r, attempt) refl), e');
  }

  module _ (what : Exception → Bytes) (iface : Timing → M W ℤ) where
    process_body-Runs :
        (v : View) (fs : Fields) (fuel : ℕ) (seqid : ℤ) (ts : List Token) (a : Attempt) {w w' : V}
        → fields_width fs < fuel
        → v.input_depth + suc (fields_height fs) ≤ limit
        → Runs g (attempt (iface (argument fs))) w a w'
        → {u : View × V}
        → Runs view_of (answer p what none iface 0 seqid a) (record v { incoming = ts }, w') tt u
        → Runs view_of
            (process_body p what none iface fuel seqid 0)
            (record v { incoming = fields_tokens fs ++ ts }, w)
            tt
            u
    unfolding process_body
    process_body-Runs v fs fuel seqid ts a {w} enough fits h k =
        Runs-bind _ (Runs-on_first view g w (args_read-Runs p l fs fuel ts v new_args enough fits))
          (Runs-bind _ (Runs-on_first view g w (read_message_end_runs _)) (
            Runs-bind _ (Runs-on_first view g w (transport_read_end_runs _).1)
              (Runs-bind _ (Runs-on_second view g _ h) k)))

    process_bench-Runs :
        {v u : View × V} (fuel : ℕ) (seqid : ℤ)
        → Runs view_of (process_body p what none iface fuel seqid 0) v tt u
        → Runs view_of (process_bench p what none iface fuel seqid) v tt u
    unfolding process_bench
    process_bench-Runs fuel seqid h = record {
      run = λ s e. let (s', r, e') = h.run s e in (s', rw r refl, e');
    }

    process_bench-Exits :
        {v u : View × V} (fuel : ℕ) (seqid : ℤ)
        → Exits view_of (process_body p what none iface fuel seqid 0) v u
        → Exits view_of (process_bench p what none iface fuel seqid) v u
    unfolding process_bench
    process_bench-Exits fuel seqid h = record {
      run = λ s e. let (s', r, e') = h.run s e in (s', rw r refl, e');
    }

    module _ (v : View) (fs : Fields) (fuel : ℕ) (seqid : ℤ) (ts : List Token)
        (enough : fields_width fs < fuel) (fits : v.input_depth + suc (fields_height fs) ≤ limit)
        {w : V} where
      -- If fuel and nesting suffice for the fields of a call of `bench`, and the handler returns
      -- for the timing that they stand for, the processor reads the call to its end, and flushes a
      -- reply with the value and the call's sequence number.
      pub dispatch_call-returned :
          (x : ℤ) {w' : V}
          → Runs g (iface (argument fs)) w x w'
          → Runs view_of
              (dispatch_call p what none iface fuel (bytes "bench") seqid)
              (record v { incoming = fields_tokens fs ++ ts }, w)
              true
              (answered (record v { incoming = ts }) (reply_tokens seqid x), w')
      unfolding dispatch_call same_bytes answer
      dispatch_call-returned x {w'} h =
          Runs-bind _
            (process_bench-Runs fuel seqid (
              process_body-Runs v fs fuel seqid ts (returned x) enough fits (Runs-attempt x h) (
                Runs-bind _ (Runs-on_first view g w' (answer_result-Runs p l _ seqid x))
                  (Runs-pure _ _))))
            (Runs-pure _ _)

      -- If fuel and nesting suffice for the fields of a call of `bench`, and the handler throws for
      -- the timing that they stand for, the processor reads the call to its end, and flushes an
      -- exception message with the text of what was thrown and the call's sequence number. It
      -- throws nothing itself.
      pub dispatch_call-caught :
          (x : Exception) {w' : V}
          → Throws g (iface (argument fs)) w x w'
          → Runs view_of
              (dispatch_call p what none iface fuel (bytes "bench") seqid)
              (record v { incoming = fields_tokens fs ++ ts }, w)
              true
              (
                answered
                    (record v { incoming = ts })
                    (fault_tokens (bytes "bench") seqid (application 0 (what x))),
                w',
              )
      unfolding dispatch_call same_bytes answer
      dispatch_call-caught x {w'} h =
          Runs-bind _
            (process_bench-Runs fuel seqid (
              process_body-Runs v fs fuel seqid ts (caught x) enough fits (Runs-attempt_caught x h)
                (Runs-on_first view g w' (answer_exception-Runs p l _ _ _ _))))
            (Runs-pure _ _)

      -- If fuel and nesting suffice for the fields of a call of `bench`, and the handler ends the
      -- process for the timing that they stand for, the call has been read to its end and nothing
      -- has been written.
      pub dispatch_call-exited :
          {w' : V}
          → Exits g (iface (argument fs)) w w'
          → Exits view_of
              (dispatch_call p what none iface fuel (bytes "bench") seqid)
              (record v { incoming = fields_tokens fs ++ ts }, w)
              (record v { incoming = ts }, w')
      unfolding dispatch_call same_bytes process_body
      dispatch_call-exited {w'} h = Exits-first _ (process_bench-Exits fuel seqid body)
        where
          body :
              Exits view_of
                (process_body p what none iface fuel seqid 0)
                (record v { incoming = fields_tokens fs ++ ts }, w)
                (record v { incoming = ts }, w')
          body =
              Exits-bind _
                (Runs-on_first view g w (args_read-Runs p l fs fuel ts v new_args enough fits))
                (Exits-bind _ (Runs-on_first view g w (read_message_end_runs _)) (
                  Exits-bind _ (Runs-on_first view g w (transport_read_end_runs _).1)
                    (Exits-first _ (Exits-on_second view g _ (Exits-attempt h)))))

    -- If the nesting fits, a call of a method other than `bench` is, with any fuel, read to its
    -- end, is answered by a flushed exception message of type UNKNOWN_METHOD under the call's name
    -- and sequence number, and does not reach the handler.
    pub dispatch_call-unknown :
        (v : View) (fs : Fields) (fuel : ℕ) (seqid : ℤ) (ts : List Token) {w : V} (fname : Bytes)
        → v.input_depth + suc (fields_height fs) ≤ limit
        → same_bytes (bytes "bench") fname ≡ false
        → Runs view_of
            (dispatch_call p what none iface fuel fname seqid)
            (record v { incoming = fields_tokens fs ++ ts }, w)
            true
            (
              answered
                  (record v { incoming = ts })
                  (fault_tokens fname seqid (unknown_method fname)),
              w,
            )
    unfolding dispatch_call
    dispatch_call-unknown v fs fuel seqid ts {w} fname fits h =
        rw (h, dispatch_call)
          (Runs-on_first view g w (
            Runs-bind _ (skip_runs v (Value.struct fs) ts fits) (
              Runs-bind _ (read_message_end_runs _) (
                Runs-bind _ (transport_read_end_runs _).1
                  (Runs-bind _ (answer_exception-Runs p l _ _ _ _) (Runs-pure _ _))))))
