-- ===== src/Thrift/Processor/Hooks/Order.antt =====
-- The order in which process_bench calls the hooks of an event handler, and the handler between
-- them.
use ros2_pubsub_benchmark.Prelude.{
  ℕ, suc, ◌+◌, ◌≤◌, ◌<◌, ◌≡◌, refl, ap, ◌∙◌, List, [], ◌∷◌, ◌++◌, append_assoc, true, some,
}
use ros2_pubsub_benchmark.Prelude.Int.{ℤ}
use ros2_pubsub_benchmark.Prelude.Bytes.{Bytes, bytes, same_bytes}
use ros2_pubsub_benchmark.Effect.{
  Exception, Ending, done, threw, exited, undefined, spinning, M, ◌>>=◌,
}
use ros2_pubsub_benchmark.Thrift.Protocol.{Protocol, Laws}
use ros2_pubsub_benchmark.Thrift.Protocol.Rules.{Runs, Runs-bind, Runs-pure, Runs-eq}
use ros2_pubsub_benchmark.Thrift.Protocol.Wire.{
  Token, Fields, View, fields_tokens, fields_height, fields_width,
}
use ros2_pubsub_benchmark.Thrift.Zoom.{both, on_second, Runs-on_first, Runs-on_second}
use ros2_pubsub_benchmark.Thrift.Timing.{Timing}
use ros2_pubsub_benchmark.Thrift.Structs.{new_args}
use ros2_pubsub_benchmark.Thrift.Structs.Codec.{args_read-Runs}
use ros2_pubsub_benchmark.Thrift.Processor.{
  EventHandler, notify, full_name, Attempt, returned, caught, attempt, answer, process_body,
  process_bench, dispatch_call,
}
use ros2_pubsub_benchmark.Thrift.Processor.Answers.{argument}
use ros2_pubsub_benchmark.Thrift.Processor.Replies.{
  reply_tokens, answered, answer_exception-Runs, answer_result-Runs,
}
use ros2_pubsub_benchmark.Thrift.Processor.Hooks.{
  Event, context, before_read, after_read, handled, before_write, after_write, failed, freed, Log,
  note, recorder, recorded, attempt_tokens, events_of,
}

abbrev unfreed : Attempt → Log
unfreed (returned x) = before_write ∷ after_write ∷ []
unfreed (caught e) = failed ∷ []

whole_log :
    (log : Log) (a : Attempt)
    → ((log ++ context ∷ []) ++ before_read ∷ after_read ∷ handled ∷ unfreed a) ++ freed ∷ []
      ≡ log ++ events_of a
whole_log log (returned x) = simp append_assoc
whole_log log (caught e) = simp append_assoc

module _ (p : Protocol) (l : Laws p) {W V : Type 0} (g : W → V) where
  abbrev pub logged : Log × W → Log × V
  logged (log, w) = (log, g w)

  abbrev pub seen_of : p.State × (Log × W) → View × (Log × V)
  seen_of = both l.view logged

  note-Runs : (e : Event) (log : Log) (w : V) → Runs logged (note e) (log, w) tt (log ++ e ∷ [], w)
  note-Runs e log w = record { run = λ s h. ((s.0 ++ e ∷ [], s.1), refl, cc (h)) }

  attempt-on_second :
      (o : Ending W ℤ) (s : Log × W)
      → attempt (on_second (λ w. o)) s ≡ on_second (attempt (λ w. o)) s
  attempt-on_second (done a w) s = refl
  attempt-on_second (threw e w) s = refl
  attempt-on_second (exited w) s = refl
  attempt-on_second (undefined w) s = refl
  attempt-on_second (spinning w) s = refl

  recorded-Runs :
      (iface : Timing → M W ℤ) (arg : Timing) (log : Log) (a : Attempt) {w w' : V}
      → Runs g (attempt (iface arg)) w a w'
      → Runs logged (attempt (recorded iface arg)) (log, w) a (log ++ handled ∷ [], w')
  recorded-Runs iface arg log a {w} h = record {
    run = λ s e.
        let here : g s.1 ≡ w = ap (λ (q : Log × V). q.1) e in
        let (w1, r, e1) = h.run s.1 here in
        (
          (s.0 ++ handled ∷ [], w1),
          attempt-on_second (iface arg s.1) (s.0 ++ handled ∷ [], s.1) ∙ rw (r, on_second) refl,
          cc (e, e1),
        );
  }

  module _ (what : Exception → Bytes) (iface : Timing → M W ℤ) where
    hook-Runs :
        (hook : EventHandler (Log × W) → M (Log × W) (Unit {0})) (e : Event)
        → hook recorder ≡ note e
        → (v : View) (log : Log) (w : V)
        → Runs seen_of
            (notify p what (some recorder) (recorded iface) hook)
            (v, (log, w))
            tt
            (v, (log ++ e ∷ [], w))
    unfolding notify
    hook-Runs hook e same v log w = Runs-on_second l.view logged v (rw same (note-Runs e log w))

    -- A hook, and what comes behind it.
    Runs-hook :
        {k : M (p.State × (Log × W)) (Unit {0})} {u : View × (Log × V)}
        (hook : EventHandler (Log × W) → M (Log × W) (Unit {0})) (e : Event)
        → hook recorder ≡ note e
        → {v : View} {log : Log} {w : V} → Runs seen_of k (v, (log ++ e ∷ [], w)) tt u
        → Runs seen_of
            (notify p what (some recorder) (recorded iface) hook >>= λ _. k)
            (v, (log, w))
            tt
            u
    Runs-hook {k} hook e same h = Runs-bind (λ _. k) (hook-Runs hook e same _ _ _) h

    answer-Runs :
        (a : Attempt) (v : View) (log : Log) (seqid : ℤ) (w : V)
        → Runs seen_of
            (answer p what (some recorder) (recorded iface) 1 seqid a)
            (v, (log, w))
            tt
            (answered v (attempt_tokens what seqid a), (log ++ unfreed a, w))
    unfolding answer
    answer-Runs (caught e) v log seqid w =
        Runs-hook (λ h. h.handler_error 1 full_name) failed refl
          (Runs-on_first l.view logged _ (answer_exception-Runs p l _ _ _ _))
    answer-Runs (returned x) v log seqid w =
        let (n, ended) =
          l.transport_write_end_runs (record v { outgoing = v.outgoing ++ reply_tokens seqid x }) in
        let wrote = λ (t : ℕ).
          notify p what (some recorder) (recorded iface) (λ h. h.post_write 1 full_name t) in
        Runs-eq
          (Runs-hook (λ h. h.pre_write 1 full_name) before_write refl
            (Runs-bind wrote (Runs-on_first l.view logged _ (answer_result-Runs p l _ seqid x))
              (hook-Runs (λ h. h.post_write 1 full_name n) after_write refl _ _ w)))
          refl (simp append_assoc)

    module _ (v : View) (fs : Fields) (fuel : ℕ) (seqid : ℤ) (ts : List Token) (a : Attempt)
        (enough : fields_width fs < fuel) (fits : v.input_depth + suc (fields_height fs) ≤ l.limit)
        {w w' : V} (outcome : Runs g (attempt (iface (argument fs))) w a w') where
      body-Runs :
          (log : Log)
          → Runs seen_of
              (process_body p what (some recorder) (recorded iface) fuel seqid 1)
              (record v { incoming = fields_tokens fs ++ ts }, (log, w))
              tt
              (
                answered (record v { incoming = ts }) (attempt_tokens what seqid a),
                (log ++ before_read ∷ after_read ∷ handled ∷ unfreed a, w'),
              )
      unfolding process_body
      body-Runs log =
          let (n, ended) = l.transport_read_end_runs (record v { incoming = ts }) in
          Runs-eq
            (Runs-hook (λ h. h.pre_read 1 full_name) before_read refl
              (Runs-bind _
                (Runs-on_first l.view logged _
                  (args_read-Runs p l fs fuel ts v new_args enough fits))
                (Runs-bind _ (Runs-on_first l.view logged _ (l.read_message_end_runs _)) (
                  Runs-bind _ (Runs-on_first l.view logged _ ended) (
                    Runs-hook (λ h. h.post_read 1 full_name n) after_read refl
                      (Runs-bind (answer p what (some recorder) (recorded iface) 1 seqid)
                        (Runs-on_second l.view logged _
                          (recorded-Runs iface (argument fs) _ a outcome))
                        (answer-Runs a _ _ seqid w')))))))
            refl (simp append_assoc)

      process_bench-Runs :
          (log : Log)
          → Runs seen_of
              (process_bench p what (some recorder) (recorded iface) fuel seqid)
              (record v { incoming = fields_tokens fs ++ ts }, (log, w))
              tt
              (
                answered (record v { incoming = ts }) (attempt_tokens what seqid a),
                (log ++ events_of a, w'),
              )
      unfolding process_bench
      process_bench-Runs log = record {
        run = λ s e.
            let (s', r, e') =
              (body-Runs (log ++ context ∷ [])).run (s.0, (s.1.0 ++ context ∷ [], s.1.1))
                (cc (e)) in
            ((s'.0, (s'.1.0 ++ freed ∷ [], s'.1.1)), rw r refl, cc (e', whole_log log a));
      }

      -- If fuel and nesting suffice for the fields of a call of `bench`, an event handler is called
      -- in this order: for the context, before and behind the reading of the arguments, then,
      -- behind the handler, before and behind the writing of a reply, or, if the handler throws,
      -- once for its error; and at last to free the context. The reply, or the exception message,
      -- is flushed under the call's sequence number.
      pub dispatch_call-hooks :
          (log : Log)
          → Runs seen_of
              (dispatch_call p what (some recorder) (recorded iface) fuel (bytes "bench") seqid)
              (record v { incoming = fields_tokens fs ++ ts }, (log, w))
              true
              (
                answered (record v { incoming = ts }) (attempt_tokens what seqid a),
                (log ++ events_of a, w'),
              )
      unfolding dispatch_call same_bytes
      dispatch_call-hooks log = Runs-bind _ (process_bench-Runs log) (Runs-pure _ _)
