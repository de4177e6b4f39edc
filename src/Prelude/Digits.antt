-- ===== src/Prelude/Digits.antt =====
-- The number that decimal digits stand for, and why std::to_string gives each number its own text.
use Prim.Native.Nat.{ℕ, zero, suc, ◌+◌, ◌-◌, ◌*◌, ◌/◌, ◌%◌, ◌≤◌, ◌<◌}
use mathlib.Core.Path.{◌≡◌, sym, ap, ◌∙◌}
use mathlib.Core.Logic.{inl, inr}
use mathlib.Core.List.{[], ◌∷◌}
use native.Mathlib.Omega.{arith}
use ros2_pubsub_benchmark.Prelude.Lists.{All}
use ros2_pubsub_benchmark.Prelude.Tests.{ltb, Bool-cases}
use ros2_pubsub_benchmark.Prelude.Bytes.{Bytes, digits_onto, to_string}

-- The digits of `ds`, put behind a number.
abbrev value : ℕ → Bytes → ℕ
value n [] = n
value n (d ∷ ds) = value (n * 10 + (d - b'0')) ds

value-digits_onto :
    (fuel n : ℕ) (tail : Bytes) → n < fuel → value 0 (digits_onto fuel n tail) ≡ value n tail
unfolding digits_onto
value-digits_onto zero n tail h = absurd (omega arith)
value-digits_onto (suc fuel) n tail h = elim (Bool-cases (ltb n 10)) [
  | inl small ↦
      let same : 0 * 10 + (b'0' + n % 10 - b'0') ≡ n = ground arith in
      rw small (ap (λ k. value k tail) same)
  | inr large ↦
      let same : n / 10 * 10 + (b'0' + n % 10 - b'0') ≡ n = ground arith in
      let less : n / 10 < fuel = ground arith in
      rw large (
        value-digits_onto fuel (n / 10) ((b'0' + n % 10) ∷ tail) less ∙ ap (λ k. value k tail) same)
]

value-to_string : (n : ℕ) → value 0 (to_string n) ≡ n
unfolding to_string
value-to_string n = value-digits_onto (n + 1) n [] (omega arith)

-- std::stoi of a text of decimal digits.
unfoldable pub stoi : Bytes → ℕ
stoi text = value 0 text

pub stoi-to_string : (n : ℕ) → stoi (to_string n) ≡ n
unfolding stoi
stoi-to_string n = value-to_string n

pub to_string-inj : (m n : ℕ) → to_string m ≡ to_string n → m ≡ n
to_string-inj m n e = sym (value-to_string m) ∙ ap (value 0) e ∙ value-to_string n

-- The texts of numbers are of digits.
digits_onto-digits :
    (fuel n : ℕ) (tail : Bytes)
    → All (λ c. b'0' ≤ c) tail
    → All (λ c. b'0' ≤ c) (digits_onto fuel n tail)
unfolding digits_onto
digits_onto-digits zero n tail h = h
digits_onto-digits (suc fuel) n tail h = elim (Bool-cases (ltb n 10)) [
  | inl small ↦ rw small (omega arith, h)
  | inr large ↦
      rw large (digits_onto-digits fuel (n / 10) ((b'0' + n % 10) ∷ tail) (omega arith, h))
]

pub to_string-digits : (n : ℕ) → All (λ c. b'0' ≤ c) (to_string n)
unfolding to_string
to_string-digits n = digits_onto-digits (n + 1) n [] tt
