-- ===== src/Thrift/Timing/Codec.antt =====
-- timing::read and timing::write against the fields that the wire holds.
use ros2_pubsub_benchmark.Prelude.{
  ℕ, suc, ◌+◌, ◌≤◌, ◌<◌, ◌≡◌, refl, List, [], ◌++◌, append_assoc, true, false, arith, if◌then◌else◌,
}
use ros2_pubsub_benchmark.Prelude.Int.{ℤ, pos, negsuc, eq_ℤ}
use ros2_pubsub_benchmark.Effect.{M, done}
use ros2_pubsub_benchmark.Thrift.Protocol.{Protocol, Laws}
use ros2_pubsub_benchmark.Thrift.Protocol.Rules.{
  Runs, Runs-bind, Runs-pure, Runs-if, Runs-if_same, Runs-eq,
}
use ros2_pubsub_benchmark.Thrift.Protocol.Wire.{
  Token, Value, Fields, end, field, View, value_tokens, fields_tokens, type_of, height,
  fields_height, fields_width, weigh, add_u32-nil, counters,
}
use ros2_pubsub_benchmark.Thrift.Fields.{add_all}
use ros2_pubsub_benchmark.Thrift.Fields.Loop.{
  store_all, struct_read-Runs, skip_field-Runs, tracked_output-Runs,
}
use ros2_pubsub_benchmark.Thrift.Timing.{
  Timing, TimingIsset, timing_field, timing_read, timing_write,
}

-- What a field of the wire means to a timing: 1 and 2 are the numbers, 3 is the source, and a field
-- with another number, or of another type than its number asks for, means nothing.
abbrev pub store_timing : ℤ → Value → Timing → Timing
store_timing id (Value.i64 x) t =
    if eq_ℤ id 1
    then record t { msgid = x; isset = record t.isset { msgid = true } }
    else if eq_ℤ id 2
    then record t { nanosec = x; isset = record t.isset { nanosec = true } }
    else t
store_timing id (Value.text b) t =
    if eq_ℤ id 3 then record t { source = b; isset = record t.isset { source = true } } else t
store_timing id (Value.raw code x) t = t
store_timing id (Value.struct fs) t = t

-- The fields that a timing is written as.
abbrev pub timing_fields : Timing → Fields
timing_fields t =
    field (pos 1) (Value.i64 t.msgid)
      (field (pos 2) (Value.i64 t.nanosec) (field (pos 3) (Value.text t.source) end))

abbrev pub all_set : TimingIsset
all_set = record { msgid = true; nanosec = true; source = true }

not_three : (id : ℤ) (k : ℕ) → eq_ℤ id k ≡ true → k < 3 → eq_ℤ id 3 ≡ false
not_three (pos n) k e h = ground arith
not_three (negsuc n) k e h = cc

-- Each case of the `switch` skips.
skips_always :
    {S : Type 0} {view : S → View} (id : ℤ) {m : M S (ℕ × Timing)} {v w : View} {a : ℕ × Timing}
    → Runs view m v a w
    → Runs view (if eq_ℤ id 1 then m else if eq_ℤ id 2 then m else if eq_ℤ id 3 then m else m) v a w
skips_always id h =
    Runs-if_same (eq_ℤ id 1) (λ _. h)
      (λ _. Runs-if_same (eq_ℤ id 2) (λ _. h) (λ _. Runs-if_same (eq_ℤ id 3) (λ _. h) (λ _. h)))

module _ (p : Protocol) (l : Laws p) where
  open p use {State}
  open l use {
    view, size, limit, read_i64_runs, read_string_runs, write_struct_begin_runs,
    write_struct_end_runs, write_field_begin_runs, write_field_end_runs, write_field_stop_runs,
    write_i64_runs, write_string_runs,
  }

  timing_field-Runs :
      (v : View) (t : Timing) (id : ℤ) (val : Value) (ts : List Token)
      → v.input_depth + height val ≤ limit
      → Runs view
          (timing_field p (type_of val) id t)
          (record v { incoming = value_tokens val ++ ts })
          (weigh size (value_tokens val), store_timing id val t)
          (record v { incoming = ts })
  unfolding timing_field
  timing_field-Runs v t id (Value.i64 x) ts fits =
      Runs-if (eq_ℤ id 1) (Runs-bind _ (read_i64_runs v x ts) (Runs-pure _ _)) (
        Runs-if (eq_ℤ id 2) (Runs-bind _ (read_i64_runs v x ts) (Runs-pure _ _)) (
          Runs-if_same (eq_ℤ id 3) (λ _. skip_field-Runs p l v t (Value.i64 x) ts fits)
            (λ _. skip_field-Runs p l v t (Value.i64 x) ts fits)))
  timing_field-Runs v t id (Value.text b) ts fits =
      let skips = skip_field-Runs p l v t (Value.text b) ts fits in
      Runs-if_same (eq_ℤ id 1) (λ e. rw (not_three id 1 e (omega arith)) skips)
        (λ _.
          Runs-if_same (eq_ℤ id 2) (λ e. rw (not_three id 2 e (omega arith)) skips)
            (λ _.
              Runs-if (eq_ℤ id 3) (Runs-bind _ (read_string_runs v b ts) (Runs-pure _ _)) skips))
  timing_field-Runs v t id (Value.raw code x) ts fits =
      skips_always id (skip_field-Runs p l v t (Value.raw code x) ts fits)
  timing_field-Runs v t id (Value.struct fs) ts fits =
      skips_always id (skip_field-Runs p l v t (Value.struct fs) ts fits)

  -- For every list of fields, in any order, with repetitions, unknown numbers and wrong types among
  -- them, if no struct in it has as many fields as there is fuel and its nesting fits, timing::read
  -- takes the struct off the wire to its end, returns the number of its bytes modulo 2 ^ 32, and
  -- stores the fields by their numbers and types.
  pub timing_read-Runs :
      (fs : Fields) (fuel : ℕ) (ts : List Token) (v : View) (t : Timing)
      → fields_width fs < fuel
      → v.input_depth + suc (fields_height fs) ≤ limit
      → Runs view
          (timing_read p fuel t)
          (record v { incoming = fields_tokens fs ++ ts })
          (weigh size (fields_tokens fs), store_all store_timing fs t)
          (record v { incoming = ts })
  unfolding timing_read
  timing_read-Runs fs fuel ts v t enough fits =
      struct_read-Runs p l fuel (timing_field p) store_timing
        (λ v' t' id val us _. timing_field-Runs v' t' id val us) fs ts v t enough fits

  -- If the nesting fits, timing::write puts the three fields out in the order of their numbers,
  -- whether they are marked as set or not, with the stop behind them, and returns the number of
  -- their bytes modulo 2 ^ 32.
  pub timing_write-Runs :
      (v : View) (t : Timing)
      → v.output_depth < limit
      → Runs view
          (timing_write p t)
          v
          (weigh size (fields_tokens (timing_fields t)))
          (record v { outgoing = v.outgoing ++ fields_tokens (timing_fields t) })
  unfolding timing_write add_all
  timing_write-Runs v t fits = tracked_output-Runs p l _ _ _ _ fits refl (
      Runs-eq
        (Runs-bind _ (write_struct_begin_runs _ _) (
          Runs-bind _ (write_field_begin_runs _ _ _ _) (
            Runs-bind _ (write_i64_runs _ _) (
              Runs-bind _ (write_field_end_runs _) (
                Runs-bind _ (write_field_begin_runs _ _ _ _) (
                  Runs-bind _ (write_i64_runs _ _) (
                    Runs-bind _ (write_field_end_runs _) (
                      Runs-bind _ (write_field_begin_runs _ _ _ _) (
                        Runs-bind _ (write_string_runs _ _) (
                          Runs-bind _ (write_field_end_runs _) (
                            Runs-bind _ (write_field_stop_runs _)
                              (Runs-bind _ (write_struct_end_runs _) (Runs-pure _ _)))))))))))))
        (simp (add_u32-nil size, counters)) (simp append_assoc))

  -- With fuel above 3 and room for the nesting, a timing that a write has put on the wire, with
  -- nothing written before it and anything behind it, is read back with its three values, each
  -- marked as set, whatever the reader's object held. The reader counts as many bytes as the
  -- writer, and stops where the writer stopped.
  pub timing_read-timing_write :
      (t this : Timing) (s s' r : State) (n fuel : ℕ) (ts : List Token)
      → (view s).outgoing ≡ []
      → (view s).output_depth < limit
      → timing_write p t s ≡ done n s'
      → (view r).incoming ≡ (view s').outgoing ++ ts
      → (view r).input_depth + 2 ≤ limit
      → 3 < fuel
      → (r' : State) × (timing_read p fuel this r ≡ done (n, record t { isset = all_set }) r')
        × (view r' ≡ record (view r) { incoming = ts })
  timing_read-timing_write t this s s' r n fuel ts clear shallow wrote carried fits enough =
      let (s1, e1, w1) = (timing_write-Runs (view s) t shallow).run s refl in
      let here : (view r).incoming ≡ fields_tokens (timing_fields t) ++ ts =
        cc (clear, wrote, e1, w1, carried) in
      let start : view r ≡ record (view r) { incoming = fields_tokens (timing_fields t) ++ ts } =
        cc (here) in
      let (r', e, w) =
        (timing_read-Runs (timing_fields t) fuel ts (view r) this (omega arith) (omega arith)).run r
          start in
      (r', cc (e, e1, wrote), w)
