-- ===== src/Thrift/Fields/Ends.antt =====
-- The termination of the loops over fields in thrift-bench/gen-cpp, on any input.
use ros2_pubsub_benchmark.Prelude.{ℕ, zero, suc, ◌≤◌, ◌<◌, Bool-cases, inl, inr, arith}
use ros2_pubsub_benchmark.Prelude.Int.{ℤ}
use ros2_pubsub_benchmark.Effect.{M, pure, ◌>>=◌}
use ros2_pubsub_benchmark.Thrift.Protocol.{Protocol}
use ros2_pubsub_benchmark.Thrift.Protocol.Wire.{TType, add_u32}
use ros2_pubsub_benchmark.Thrift.Fields.{
  read_fields, after_header, skip_field, tracked_input, is_stop,
}
use ros2_pubsub_benchmark.Thrift.Settled.{
  Settled, by_return, Uses, Settled-continue, Settled-release, Ends, Ends-of_Uses, Ends-pure,
  Ends-bind,
}

-- The input that is left, in bytes: a read returns or throws, no read adds to the input, and a
-- field's header takes at least one byte of it.
pub record Consumes (p : Protocol) : Type 0 where
  pub remaining : p.State → ℕ
  pub enter_input_settles : Uses remaining p.enter_input
  pub leave_input_keeps : (s : p.State) → remaining (p.leave_input s) ≤ remaining s
  pub read_struct_begin_settles : Uses remaining p.read_struct_begin
  pub read_struct_end_settles : Uses remaining p.read_struct_end
  pub read_field_begin_settles :
      (s : p.State) → Settled ⊥ (λ _ s'. suc (remaining s') ≤ remaining s) (p.read_field_begin s)
  pub read_field_end_settles : Uses remaining p.read_field_end
  pub read_i64_settles : Uses remaining p.read_i64
  pub read_string_settles : Uses remaining p.read_string
  pub skip_settles : (t : TType) → Uses remaining (p.skip t)

module _ (p : Protocol) (c : Consumes p) (fuel : ℕ) where
  open p use {State}
  open c use {remaining}

  -- A read that meets Q.
  abbrev pub Reads : {A : Type 0} → (A → Type 0) → M State A → Type 0
  Reads Q m = Ends remaining ⊥ fuel Q m

  pub tracked_input-Reads :
      {A : Type 0} {Q : A → Type 0} {body : M State A}
      → Reads Q body
      → Reads Q (tracked_input p body)
  unfolding tracked_input
  tracked_input-Reads h =
      Ends-bind remaining ⊥ fuel _ (Ends-of_Uses remaining ⊥ fuel c.enter_input_settles) (λ _ _.
        record {
          settles = λ s b e within.
              Settled-release p.leave_input
                (λ a s' q. (q.0, omega (arith, q.1, c.leave_input_keeps s')))
                (h.settles s b e within);
        })

  pub skip_field-Reads :
      {A : Type 0} (Inv : A → Type 0) (t : TType) (this : A)
      → Inv this
      → Reads (λ r. Inv r.1) (skip_field p t this)
  unfolding skip_field
  skip_field-Reads Inv t this i =
      Ends-bind remaining ⊥ fuel _ (Ends-of_Uses remaining ⊥ fuel (c.skip_settles t))
        (λ n _. Ends-pure remaining ⊥ fuel (λ r. Inv r.1) (n, this) i)

  -- The cases of a `switch (fid)` keep Inv.
  module _ {A : Type 0} (Inv : A → Type 0) (on_field : TType → ℤ → A → M State (ℕ × A))
      (ends : (t : TType) (id : ℤ) (a : A) → Inv a → Reads (λ r. Inv r.1) (on_field t id a)) where
    abbrev Kept : ℕ → (ℕ × A) → State → Type 0
    Kept b r s = Inv r.1 × (remaining s ≤ b)

    after_header-Settled :
        (rest : ℕ → A → M State (ℕ × A)) (xfer : ℕ) (t : TType) (id : ℤ) (a : A) (s : State) (b : ℕ)
        → Inv a
        → remaining s ≤ b
        → b < fuel
        → ((xfer' : ℕ) (a' : A) (s' : State)
            → Inv a'
            → remaining s' ≤ remaining s
            → Settled ⊥ (Kept b) (rest xfer' a' s'))
        → Settled ⊥ (Kept b) (after_header p on_field rest xfer t id a s)
    unfolding after_header
    after_header-Settled rest xfer t id a s b i e within k = elim (Bool-cases (is_stop t)) [
      | inl stop ↦ rw (stop, after_header) (by_return (xfer, a) s (i, e))
      | inr more ↦
          rw (more, after_header)
            (Settled-continue _
              ((ends t id a i).settles s (remaining s) (omega arith) (omega arith))
              (λ r s1 q1.
                Settled-continue _ (c.read_field_end_settles s1)
                  (λ n s2 e2. k _ _ s2 q1.0 (omega (arith, q1.1)))))
    ]

    read_fields-Settled :
        (n xfer : ℕ) (a : A) (s : State) (b : ℕ)
        → Inv a
        → remaining s ≤ b
        → b < fuel
        → remaining s < n
        → Settled ⊥ (Kept b) (read_fields p on_field n xfer a s)
    unfolding read_fields
    read_fields-Settled zero xfer a s b i e within left = absurd (omega arith)
    read_fields-Settled (suc n) xfer a s b i e within left =
        Settled-continue _ (c.read_field_begin_settles s) (λ r s1 e1.
          after_header-Settled (read_fields p on_field n) _ r.1 r.2 a s1 b i (omega arith) within
            (λ xfer' a' s' i' e'.
              read_fields-Settled n xfer' a' s' b i' (omega arith) within (omega arith)))

    -- A whole struct.
    pub struct_read-Reads :
        (this : A)
        → Inv this
        → Reads {A = ℕ × A}
            (λ r. Inv r.1)
            (tracked_input p (do
              n ← p.read_struct_begin
              r ← read_fields p on_field fuel (add_u32 0 n) this
              m ← p.read_struct_end
              pure (add_u32 r.0 m, r.1)))
    struct_read-Reads this i = tracked_input-Reads (
        Ends-bind remaining ⊥ fuel _ (Ends-of_Uses remaining ⊥ fuel c.read_struct_begin_settles)
          (λ n _.
            Ends-bind remaining ⊥ fuel _
              (record {
                settles = λ s b e within.
                    read_fields-Settled fuel (add_u32 0 n) this s b i e within (omega arith);
              })
              (λ r q.
                Ends-bind remaining ⊥ fuel _
                  (Ends-of_Uses remaining ⊥ fuel c.read_struct_end_settles)
                  (λ m _. Ends-pure remaining ⊥ fuel (λ r'. Inv r'.1) (add_u32 r.0 m, r.1) q))))
