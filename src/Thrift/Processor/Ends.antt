-- ===== src/Thrift/Processor/Ends.antt =====
-- BenchProcessor::dispatchCall ends, whatever is on the wire.
use ros2_pubsub_benchmark.Prelude.{
  ℕ, ◌≡◌, refl, true, inl, inr, Bool-cases, Option-cases, Option, none, some,
}
use ros2_pubsub_benchmark.Prelude.Int.{ℤ}
use ros2_pubsub_benchmark.Prelude.Bytes.{Bytes, bytes, same_bytes}
use ros2_pubsub_benchmark.Effect.{Exception, Ending, M, pure, ◌>>=◌}
use ros2_pubsub_benchmark.Thrift.Protocol.{Protocol}
use ros2_pubsub_benchmark.Thrift.Protocol.Wire.{TType}
use ros2_pubsub_benchmark.Thrift.Zoom.{on_first, on_second}
use ros2_pubsub_benchmark.Thrift.Settled.{
  Settled, by_return, by_throw, by_exit, Settled-release, Settled-on_first, Settled-on_second, Ends,
  Ends-of_Uses, Ends-pure, Ends-bind,
}
use ros2_pubsub_benchmark.Thrift.Fields.Ends.{Consumes}
use ros2_pubsub_benchmark.Thrift.Timing.{Timing}
use ros2_pubsub_benchmark.Thrift.Structs.{new_args}
use ros2_pubsub_benchmark.Thrift.Structs.Ends.{args_read-Reads}
use ros2_pubsub_benchmark.Thrift.Client.Ends.{Answers, Talks, step, talked, result_write-Talks}
use ros2_pubsub_benchmark.Thrift.Processor.{
  EventHandler, Attempt, returned, caught, attempt, full_name, unknown_method, answer_exception,
  answer_result, reject_call, notify, get_context, free_context, answer, process_body,
  process_bench, dispatch_call,
}

-- A computation on the handler's side that returns, throws, or ends the process if `Exits` holds.
abbrev pub Comes : {W A : Type 0} → Type 0 → M W A → Type 0
Comes Exits m = (w : _) → Settled Exits (λ _ _. Unit {0}) (m w)

pub record HooksCome {W : Type 0} (Exits : Type 0) (h : EventHandler W) : Type 0 where
  pub get_context_comes : (name : Bytes) → Comes Exits (h.get_context name)
  pub pre_read_comes : (ctx : ℕ) (name : Bytes) → Comes Exits (h.pre_read ctx name)
  pub post_read_comes : (ctx : ℕ) (name : Bytes) (n : ℕ) → Comes Exits (h.post_read ctx name n)
  pub handler_error_comes : (ctx : ℕ) (name : Bytes) → Comes Exits (h.handler_error ctx name)
  pub pre_write_comes : (ctx : ℕ) (name : Bytes) → Comes Exits (h.pre_write ctx name)
  pub post_write_comes : (ctx : ℕ) (name : Bytes) (n : ℕ) → Comes Exits (h.post_write ctx name n)

abbrev pub AllCome : {W : Type 0} → Type 0 → Option (EventHandler W) → Type 0
AllCome Exits none = Unit
AllCome Exits (some h) = HooksCome Exits h

-- A hook of the handler, if one is installed.
hooked :
    {W B Exits : Type 0} (events : Option (EventHandler W)) (on : EventHandler W → M W B) (off : B)
    → AllCome Exits events
    → ((h : EventHandler W) → HooksCome Exits h → Comes Exits (on h))
    → Comes Exits (elim events as (λ _. M W B) [ some h ↦ on h | none ↦ pure off ])
hooked none on off hooks k w = by_return off w tt
hooked (some h) on off hooks k w = k h hooks w

Settled-attempt :
    {W Exits : Type 0} {P : ℤ → W → Type 0} {e : Ending W ℤ} (w : W)
    → Settled Exits P e
    → Settled Exits (λ _ _. Unit {0}) (attempt (λ _. e) w)
Settled-attempt w (by_return x w' h) = by_return (returned x) w' tt
Settled-attempt w (by_throw x w') = by_return (caught x) w' tt
Settled-attempt w (by_exit w' h) = by_exit w' h

module _ (p : Protocol) (c : Consumes p) (w : Answers p c) (fuel : ℕ) where
  open p use {State}
  open c use {remaining}

  answer_exception-Talks :
      (name : Bytes) (seqid : ℤ) (x : Exception)
      → Talks p c w fuel (λ _. Unit {0}) (answer_exception p name seqid x)
  unfolding answer_exception
  answer_exception-Talks name seqid x =
      step p c w fuel _ (w.write_message_begin_settles _ _ _) (λ m.
        step p c w fuel _ (w.write_exception_settles x) (λ n.
          step p c w fuel _ w.write_message_end_settles (λ e.
            step p c w fuel _ w.transport_write_end_settles
              (λ t. Ends-of_Uses remaining ⊥ fuel w.transport_flush_settles))))

  answer_result-Talks :
      (seqid : ℤ) (result : _) → Talks p c w fuel (λ _. Unit {0}) (answer_result p seqid result)
  unfolding answer_result
  answer_result-Talks seqid result = step p c w fuel _ (w.write_message_begin_settles _ _ _) (λ m.
      Ends-bind remaining ⊥ fuel _ (result_write-Talks p c w fuel result) (λ n _.
        step p c w fuel _ w.write_message_end_settles (λ e.
          step p c w fuel _ w.transport_write_end_settles
            (λ t. step p c w fuel _ w.transport_flush_settles (λ _. talked p c w fuel t)))))

  reject_call-Talks :
      (name : Bytes) (seqid : ℤ) → Talks p c w fuel (λ _. Unit {0}) (reject_call p name seqid)
  unfolding reject_call
  reject_call-Talks name seqid = step p c w fuel _ (c.skip_settles TType.struct) (λ n.
      step p c w fuel _ w.read_message_end_settles (λ e.
        step p c w fuel _ w.transport_read_end_settles (λ t.
          Ends-bind remaining ⊥ fuel _ (answer_exception-Talks name seqid (unknown_method name))
            (λ _ _. talked p c w fuel true))))

  module _ {W : Type 0} (Exits : Type 0) (what : Exception → Bytes)
      (events : Option (EventHandler W)) (iface : Timing → M W ℤ) (hooks : AllCome Exits events)
      (handles : (t : Timing) → Comes Exits (iface t)) where
    -- A part of the processor that ends.
    abbrev Serves : {A : Type 0} → (A → Type 0) → M (State × W) A → Type 0
    Serves Q m = Ends (λ s. remaining s.0) Exits fuel Q m

    on_wire :
        {A : Type 0} {Q : A → Type 0} {m : M State A} → Talks p c w fuel Q m → Serves Q (on_first m)
    on_wire h = record {
      settles = λ s b e within. Settled-on_first _ s.0 s.1 (h.settles s.0 b e within) (λ a s' q. q);
    }

    on_side : {A : Type 0} {m : M W A} → Comes Exits m → Serves (λ _. Unit {0}) (on_second m)
    on_side h = record {
      settles = λ s b e within. Settled-on_second _ s.0 s.1 (h s.1) (λ a w'. (tt, e));
    }

    then :
        {A B : Type 0} {Q : A → Type 0} {R : B → Type 0} {m : M (State × W) A}
        (f : A → M (State × W) B)
        → Serves Q m
        → ((a : A) → Serves R (f a))
        → Serves R (m >>= f)
    then f h k = Ends-bind (λ s. remaining s.0) Exits fuel f h (λ a _. k a)

    notify-Serves :
        (hook : EventHandler W → M W (Unit {0}))
        → ((h : EventHandler W) → HooksCome Exits h → Comes Exits (hook h))
        → Serves (λ _. Unit {0}) (notify p what events iface hook)
    unfolding notify
    notify-Serves hook k = on_side (hooked events hook tt hooks k)

    answer-Serves :
        (ctx : ℕ) (seqid : ℤ) (a : Attempt)
        → Serves (λ _. Unit {0}) (answer p what events iface ctx seqid a)
    unfolding answer
    answer-Serves ctx seqid (caught e) =
        then _ (notify-Serves _ (λ h k. k.handler_error_comes ctx full_name))
          (λ _. on_wire (answer_exception-Talks _ seqid _))
    answer-Serves ctx seqid (returned x) =
        then _ (notify-Serves _ (λ h k. k.pre_write_comes ctx full_name)) (λ _.
          then _ (on_wire (answer_result-Talks seqid _))
            (λ t. notify-Serves _ (λ h k. k.post_write_comes ctx full_name t)))

    process_body-Serves :
        (seqid : ℤ) (ctx : ℕ)
        → Serves (λ _. Unit {0}) (process_body p what events iface fuel seqid ctx)
    unfolding process_body
    process_body-Serves seqid ctx =
        then _ (notify-Serves _ (λ h k. k.pre_read_comes ctx full_name)) (λ _.
          then _ (on_wire (args_read-Reads p c fuel new_args)) (λ r.
            then _ (on_wire (Ends-of_Uses remaining ⊥ fuel w.read_message_end_settles)) (λ e.
              then _ (on_wire (Ends-of_Uses remaining ⊥ fuel w.transport_read_end_settles)) (λ n.
                then _ (notify-Serves _ (λ h k. k.post_read_comes ctx full_name n)) (λ _.
                  then _ (on_side (λ v. Settled-attempt v (handles r.1.arg v)))
                    (λ a. answer-Serves ctx seqid a))))))

    get_context-Serves : Serves (λ _. Unit {0}) (get_context p what events iface)
    unfolding get_context
    get_context-Serves = on_side (
        hooked events (λ h. h.get_context full_name) 0 hooks (λ h k. k.get_context_comes full_name))

    free_context-keeps :
        (ctx : ℕ) (s : State × W) → (free_context p what events iface ctx s).0 ≡ s.0
    unfolding free_context
    free_context-keeps ctx s = elim (Option-cases events) [
      | inl off ↦ rw (off, free_context) refl
      | inr (h, on) ↦ rw (on, free_context) refl
    ]

    process_bench-Serves :
        (seqid : ℤ) → Serves (λ _. Unit {0}) (process_bench p what events iface fuel seqid)
    unfolding process_bench
    process_bench-Serves seqid = then _ get_context-Serves (λ ctx. record {
      settles = λ s b e within.
          Settled-release (free_context p what events iface ctx)
            (λ a s' q. (tt, rw (free_context-keeps ctx s') q.1))
            ((process_body-Serves seqid ctx).settles s b e within);
    })

    -- If every operation of the protocol returns or throws, none adds to the input that is left, a
    -- field's header takes at least one byte of it, and the handler and the hooks return or throw,
    -- then BenchProcessor::dispatchCall returns or throws, for every method name and sequence
    -- number and on every input of fewer bytes than the fuel, a broken one included. When it
    -- returns, at most as much input is left as before. Where the handler or a hook may end the
    -- process, dispatchCall may too.
    pub dispatch_call-Ends :
        (name : Bytes) (seqid : ℤ)
        → Ends
            (λ s. remaining s.0)
            Exits
            fuel
            (λ _. Unit {0})
            (dispatch_call p what events iface fuel name seqid)
    unfolding dispatch_call
    dispatch_call-Ends name seqid = elim (Bool-cases (same_bytes (bytes "bench") name)) [
      | inl known ↦
          rw (known, dispatch_call)
            (then _ (process_bench-Serves seqid)
              (λ _. Ends-pure (λ s. remaining s.0) Exits fuel (λ _. Unit {0}) true tt))
      | inr unknown ↦ rw (unknown, dispatch_call) (on_wire (reject_call-Talks name seqid))
    ]
