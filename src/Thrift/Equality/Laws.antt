-- ===== src/Thrift/Equality/Laws.antt =====
-- What the operators compare.
use ros2_pubsub_benchmark.Prelude.{◌≡◌, refl, sym, ◌↔◌, Bool, true, false, not, if◌then◌else◌}
use ros2_pubsub_benchmark.Thrift.Timing.{Timing, eq_int64, timing_eq}
use ros2_pubsub_benchmark.Thrift.Timing.Equality.{eq_int64_iff, timing_eq_iff}
use ros2_pubsub_benchmark.Thrift.Structs.{Args, Result}
use ros2_pubsub_benchmark.Thrift.Equality.{timing_ne, args_eq, args_ne, result_eq, result_ne}

-- The values of two timings, without the flags.
abbrev pub SameValues : Timing → Timing → Type 0
SameValues t u = (t.msgid ≡ u.msgid) × (t.nanosec ≡ u.nanosec) × (t.source ≡ u.source)

-- A test and its negation decide a proposition.
abbrev pub Tests : Bool → Bool → Type 0 → Type 0
Tests eq ne P = ((eq ≡ true) ↔ P) × ((ne ≡ false) ↔ P)

Tests-not : (b : Bool) {P : Type 0} → (b ≡ true) ↔ P → Tests b (not b) P
Tests-not true h = (h, ((λ e. h.0 refl), (λ x. refl)))
Tests-not false h = (h, ((λ e. absurd (cc (e))), (λ x. sym (h.1 x))))

Tests-if :
    (b : Bool) {P : Type 0}
    → (b ≡ true) ↔ P
    → Tests (if not b then false else true) (not (if not b then false else true)) P
Tests-if true h = Tests-not true h
Tests-if false h = Tests-not false h

-- operator== and operator!= of timing, of the arguments and of the result decide whether the values
-- are the same: the message numbers, the times and the sources of timings, and the success values
-- of results. No flag of a field that has been set counts.
pub equality-Tests :
    ((t u : Timing) → Tests (timing_eq t u) (timing_ne t u) (SameValues t u))
    × ((a b : Args) → Tests (args_eq a b) (args_ne a b) (SameValues a.arg b.arg))
    × ((r s : Result) → Tests (result_eq r s) (result_ne r s) (r.success ≡ s.success))
unfolding timing_ne args_eq args_ne result_eq result_ne
equality-Tests = (
  (λ t u. Tests-not (timing_eq t u) (timing_eq_iff t u)),
  (λ a b. Tests-if (timing_eq a.arg b.arg) (timing_eq_iff a.arg b.arg)),
  (λ r s. Tests-if (eq_int64 r.success s.success) (eq_int64_iff r.success s.success)),
)
