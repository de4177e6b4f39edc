-- ===== src/Thrift/Structs/Ends.antt =====
-- The termination of the reads of Bench_bench_args and Bench_bench_presult, on any input.
use ros2_pubsub_benchmark.Prelude.{ℕ, ◌≡◌, refl, Bool, true, some, if◌then◌else◌}
use ros2_pubsub_benchmark.Prelude.Int.{ℤ, eq_ℤ}
use ros2_pubsub_benchmark.Effect.{M, pure, ◌>>=◌}
use ros2_pubsub_benchmark.Thrift.Protocol.{Protocol}
use ros2_pubsub_benchmark.Thrift.Protocol.Wire.{TType}
use ros2_pubsub_benchmark.Thrift.Fields.{is_i64, is_string, is_struct}
use ros2_pubsub_benchmark.Thrift.Settled.{Uses, Ends-of_Uses, Ends-pure, Ends-bind, Ends-if}
use ros2_pubsub_benchmark.Thrift.Fields.Ends.{Consumes, Reads, skip_field-Reads, struct_read-Reads}
use ros2_pubsub_benchmark.Thrift.Timing.{Timing, timing_field, timing_read}
use ros2_pubsub_benchmark.Thrift.Structs.{
  Args, Presult, args_field, args_read, presult_field, presult_read,
}

-- What `*success` refers to is assigned to if the result is marked as set.
abbrev pub Assigned : Presult → Type 0
Assigned r = r.isset ≡ true → (x : ℤ) × (r.success ≡ some x)

module _ (p : Protocol) (c : Consumes p) (fuel : ℕ) where
  open p use {State}
  open c use {remaining}

  either :
      (t : Bool) {A : Type 0} {Q : A → Type 0} {m m' : M State A}
      → Reads p c fuel Q m
      → Reads p c fuel Q m'
      → Reads p c fuel Q (if t then m else m')
  either t h k = Ends-if remaining ⊥ fuel t h k

  -- A value that is read into a member.
  into_member :
      {V A : Type 0} {m : M State (ℕ × V)} (Inv : A → Type 0) (assign : V → A)
      → Reads p c fuel (λ _. Unit {0}) m
      → ((v : V) → Inv (assign v))
      → Reads p c fuel {A = ℕ × A} (λ r. Inv r.1) (m >>= λ r. pure (r.0, assign r.1))
  into_member Inv assign h k =
      Ends-bind remaining ⊥ fuel _ h
        (λ r _. Ends-pure remaining ⊥ fuel (λ r'. Inv r'.1) (r.0, assign r.1) (k r.1))

  uses : {A : Type 0} {m : M State A} → Uses remaining m → Reads p c fuel (λ _. Unit {0}) m
  uses h = Ends-of_Uses remaining ⊥ fuel h

  timing_field-Reads :
      (t : TType) (id : ℤ) (this : Timing)
      → Unit {0}
      → Reads p c fuel (λ _. Unit {0}) (timing_field p t id this)
  unfolding timing_field
  timing_field-Reads t id this _ =
      let skips = skip_field-Reads p c fuel (λ (this : Timing). Unit {0}) t this tt in
      let number = uses c.read_i64_settles in
      let string = uses c.read_string_settles in
      either (eq_ℤ id 1) (either (is_i64 t) (into_member (λ _. Unit {0}) _ number (λ _. tt)) skips)
        (either (eq_ℤ id 2)
          (either (is_i64 t) (into_member (λ _. Unit {0}) _ number (λ _. tt)) skips)
          (either (eq_ℤ id 3)
            (either (is_string t) (into_member (λ _. Unit {0}) _ string (λ _. tt)) skips) skips))

  timing_read-Reads : (this : Timing) → Reads p c fuel (λ _. Unit {0}) (timing_read p fuel this)
  unfolding timing_read
  timing_read-Reads this =
      struct_read-Reads p c fuel (λ _. Unit {0}) (timing_field p) timing_field-Reads this tt

  args_field-Reads :
      (t : TType) (id : ℤ) (this : Args)
      → Unit {0}
      → Reads p c fuel (λ _. Unit {0}) (args_field p fuel t id this)
  unfolding args_field
  args_field-Reads t id this _ =
      let skips = skip_field-Reads p c fuel (λ (this : Args). Unit {0}) t this tt in
      either (eq_ℤ id 1)
        (either (is_struct t) (into_member (λ _. Unit {0}) _ (timing_read-Reads this.arg) (λ _. tt))
          skips)
        skips

  pub args_read-Reads : (this : Args) → Reads p c fuel (λ _. Unit {0}) (args_read p fuel this)
  unfolding args_read
  args_read-Reads this =
      struct_read-Reads p c fuel (λ _. Unit {0}) (args_field p fuel) args_field-Reads this tt

  presult_field-Reads :
      (t : TType) (id : ℤ) (this : Presult)
      → Assigned this
      → Reads p c fuel (λ r. Assigned r.1) (presult_field p t id this)
  unfolding presult_field
  presult_field-Reads t id this i =
      let skips = skip_field-Reads p c fuel Assigned t this i in
      either (eq_ℤ id 0)
        (either (is_i64 t) (into_member Assigned _ (uses c.read_i64_settles) (λ x e. (x, refl)))
          skips)
        skips

  pub presult_read-Reads :
      (this : Presult)
      → Assigned this
      → Reads p c fuel (λ r. Assigned r.1) (presult_read p fuel this)
  unfolding presult_read
  presult_read-Reads this i =
      struct_read-Reads p c fuel Assigned (presult_field p) presult_field-Reads this i
