-- ===== src/Thrift/Fields/Loop.antt =====
-- The loop over the fields of a struct, against a fold over the fields that the wire holds.
use ros2_pubsub_benchmark.Prelude.{
  ℕ, zero, suc, ◌+◌, ◌≤◌, ◌<◌, ◌≡◌, refl, ◌∙◌, List, [], ◌∷◌, ◌++◌, append_assoc, arith,
}
use ros2_pubsub_benchmark.Prelude.Int.{ℤ}
use ros2_pubsub_benchmark.Effect.{M, pure, ◌>>=◌}
use ros2_pubsub_benchmark.Thrift.Protocol.{Protocol, Laws}
use ros2_pubsub_benchmark.Thrift.Protocol.Rules.{Runs, Runs-bind, Runs-pure}
use ros2_pubsub_benchmark.Thrift.Protocol.Wire.{
  TType, Token, Value, Fields, end, field, View, value_tokens, fields_tokens, type_of, height,
  fields_height, width, fields_width, weigh, add_u32, add_u32-nil, add_u32-weigh, counters,
  add_u32-zero,
}
use ros2_pubsub_benchmark.Thrift.Fields.{
  read_fields, after_header, skip_field, tracked_input, tracked_output,
}

-- The fields in their order, each stored in the object.
abbrev pub store_all : {A : Type 0} → (ℤ → Value → A → A) → Fields → A → A
store_all store end a = a
store_all store (field id val fs) a = store_all store fs (store id val a)

-- The tokens taken once a field is read.
past_field : List Token → ℤ → Value → List Token
past_field past id val = (past ++ Token.field (type_of val) id ∷ []) ++ value_tokens val

past_field-append :
    (past : List Token) (id : ℤ) (val : Value) (ts : List Token)
    → past_field past id val ++ ts ≡ past ++ Token.field (type_of val) id ∷ (value_tokens val ++ ts)
unfolding past_field
past_field-append past id val ts = simp append_assoc

weigh-past_field :
    (size : Token → ℕ) (past : List Token) (id : ℤ) (val : Value)
    → add_u32
        (add_u32
          (add_u32 (weigh size past) (weigh size (Token.field (type_of val) id ∷ [])))
          (weigh size (value_tokens val)))
        0
      ≡ weigh size (past_field past id val)
unfolding past_field
weigh-past_field size past id val = simp counters

module _ (p : Protocol) (l : Laws p) {A : Type 0} where
  open p use {State, read_field_end}
  open l use {view, size, limit, read_field_begin_runs, read_field_stop_runs, read_field_end_runs}

  -- A round at a field that is not the stop.
  after_header-Runs :
      (on_field : TType → ℤ → A → M State (ℕ × A)) (rest : ℕ → A → M State (ℕ × A)) (xfer w : ℕ)
      (id : ℤ) (val : Value) (a a' : A) {b : ℕ × A} {v u z : View}
      → Runs view (on_field (type_of val) id a) v (w, a') u
      → Runs view (rest (add_u32 (add_u32 xfer w) 0) a') u b z
      → Runs view (after_header p on_field rest xfer (type_of val) id a) v b z
  unfolding after_header
  after_header-Runs on_field rest xfer w id (Value.i64 x) a a' h k =
      Runs-bind _ h (Runs-bind _ (read_field_end_runs _) k)
  after_header-Runs on_field rest xfer w id (Value.text b) a a' h k =
      Runs-bind _ h (Runs-bind _ (read_field_end_runs _) k)
  after_header-Runs on_field rest xfer w id (Value.raw code x) a a' h k =
      Runs-bind _ h (Runs-bind _ (read_field_end_runs _) k)
  after_header-Runs on_field rest xfer w id (Value.struct fs) a a' h k =
      Runs-bind _ h (Runs-bind _ (read_field_end_runs _) k)

  -- One round of the `switch` reads the value that the header announces, whatever it is, and
  -- stores it, if no struct in it has `bound` fields or more.
  abbrev pub Stores : ℕ → (TType → ℤ → A → M State (ℕ × A)) → (ℤ → Value → A → A) → Type 0
  Stores bound on_field store =
      (v : View) (a : A) (id : ℤ) (val : Value) (ts : List Token)
      → width val < bound
      → v.input_depth + height val ≤ limit
      → Runs view (on_field (type_of val) id a) (record v { incoming = value_tokens val ++ ts })
          (weigh size (value_tokens val), store id val a) (record v { incoming = ts })

  module _ (bound : ℕ) (on_field : TType → ℤ → A → M State (ℕ × A)) (store : ℤ → Value → A → A)
      (stores : Stores bound on_field store) where
    -- `past` is what the struct's reads have taken so far.
    pub read_fields-Runs :
        (fs : Fields) (fuel : ℕ) (past ts : List Token) (v : View) (a : A)
        → fields_width fs < fuel
        → fields_width fs < bound
        → v.input_depth + fields_height fs ≤ limit
        → Runs view
            (read_fields p on_field fuel (weigh size past) a)
            (record v { incoming = fields_tokens fs ++ ts })
            (weigh size (past ++ fields_tokens fs), store_all store fs a)
            (record v { incoming = ts })
    unfolding read_fields
    read_fields-Runs fs zero past ts v a enough within fits = absurd (omega arith)
    read_fields-Runs end (suc fuel) past ts v a enough within fits =
        Runs-bind _ (read_field_stop_runs v ts) (rw add_u32-weigh (Runs-pure _ _))
    read_fields-Runs (field id val fs) (suc fuel) past ts v a enough within fits =
        let later : List Token = fields_tokens fs ++ ts in
        rw (append_assoc, ← past_field-append)
          (Runs-bind _ (read_field_begin_runs v (type_of val) id (value_tokens val ++ later)) (
            after_header-Runs on_field (read_fields p on_field fuel) _ _ id val a (store id val a)
              (stores v a id val later (omega arith) (omega arith))
              (rw weigh-past_field (
                read_fields-Runs fs fuel (past_field past id val) ts v (store id val a)
                  (omega arith) (omega arith) (omega arith)))))

    -- The loop as a struct's `read` starts it.
    pub read_fields_start-Runs :
        (fs : Fields) (fuel : ℕ) (ts : List Token) (v : View) (a : A)
        → fields_width fs < fuel
        → fields_width fs < bound
        → v.input_depth + fields_height fs ≤ limit
        → Runs view
            (read_fields p on_field fuel (add_u32 0 0) a)
            (record v { incoming = fields_tokens fs ++ ts })
            (weigh size (fields_tokens fs), store_all store fs a)
            (record v { incoming = ts })
    read_fields_start-Runs fs fuel ts v a enough within fits =
        rw (add_u32-nil size) (read_fields-Runs fs fuel [] ts v a enough within fits)

module _ (p : Protocol) (l : Laws p) {A : Type 0} where
  open p use {State}
  open l use {
    view, size, limit, skip_runs, enter_input_runs, leave_input_view, enter_output_runs,
    leave_output_view,
  }

  -- The branch that skips takes a value of any type off the wire, and changes nothing.
  pub skip_field-Runs :
      (v : View) (a : A) (val : Value) (ts : List Token)
      → v.input_depth + height val ≤ limit
      → Runs view
          (skip_field p (type_of val) a)
          (record v { incoming = value_tokens val ++ ts })
          (weigh size (value_tokens val), a)
          (record v { incoming = ts })
  unfolding skip_field
  skip_field-Runs v a val ts fits = Runs-bind _ (skip_runs v val ts fits) (Runs-pure _ _)

  -- The trackers leave the depth as it was.
  pub tracked_input-Runs :
      (body : M State A) (v w : View) (a : A)
      → v.input_depth < limit
      → w.input_depth ≡ v.input_depth
      → Runs view body
          (record v { input_depth = suc v.input_depth })
          a
          (record w { input_depth = suc v.input_depth })
      → Runs view (tracked_input p body) v a w
  unfolding tracked_input
  tracked_input-Runs body v w a fits same h = record {
    run = λ s e.
        let (s1, r1, e1) = (enter_input_runs v fits).run s e in
        let (s2, r2, e2) = h.run s1 e1 in
        (
          p.leave_input s2,
          rw (r1, r2) refl,
          leave_input_view s2 w v.input_depth e2 ∙ (rw (← same) refl),
        );
  }

  pub tracked_output-Runs :
      (body : M State A) (v w : View) (a : A)
      → v.output_depth < limit
      → w.output_depth ≡ v.output_depth
      → Runs view body
          (record v { output_depth = suc v.output_depth })
          a
          (record w { output_depth = suc v.output_depth })
      → Runs view (tracked_output p body) v a w
  unfolding tracked_output
  tracked_output-Runs body v w a fits same h = record {
    run = λ s e.
        let (s1, r1, e1) = (enter_output_runs v fits).run s e in
        let (s2, r2, e2) = h.run s1 e1 in
        (
          p.leave_output s2,
          rw (r1, r2) refl,
          leave_output_view s2 w v.output_depth e2 ∙ (rw (← same) refl),
        );
  }

module _ (p : Protocol) (l : Laws p) {A : Type 0} where
  open p use {State, read_struct_begin, read_struct_end}
  open l use {view, size, limit, read_struct_begin_runs, read_struct_end_runs}

  -- A whole struct: the tracker around the loop between its two brackets takes the struct off the
  -- wire to its end, counts its bytes, and stores its fields.
  pub struct_read-Runs :
      (fuel : ℕ) (on_field : TType → ℤ → A → M State (ℕ × A)) (store : ℤ → Value → A → A)
      → Stores p l fuel on_field store
      → (fs : Fields) (ts : List Token) (v : View) (a : A) → fields_width fs < fuel
      → v.input_depth + suc (fields_height fs) ≤ limit
      → Runs {A = ℕ × A} view
          (tracked_input p (do
            n ← read_struct_begin
            r ← read_fields p on_field fuel (add_u32 0 n) a
            m ← read_struct_end
            pure (add_u32 r.0 m, r.1)))
          (record v { incoming = fields_tokens fs ++ ts })
          (weigh size (fields_tokens fs), store_all store fs a)
          (record v { incoming = ts })
  struct_read-Runs fuel on_field store stores fs ts v a enough fits =
      tracked_input-Runs p l _ _ _ _ (omega arith) refl (
        Runs-bind _ (read_struct_begin_runs _) (
          Runs-bind _
            (read_fields_start-Runs p l fuel on_field store stores fs fuel ts
              (record v { input_depth = suc v.input_depth }) a enough enough (omega arith))
            (Runs-bind _ (read_struct_end_runs _) (rw add_u32-zero (Runs-pure _ _)))))
