-- ===== src/Stats/Percentile.antt =====
-- What an index into the sorted array says of the samples.
use ros2_pubsub_benchmark.Prelude.{
  ℕ, zero, suc, ◌+◌, ◌≤◌, ◌<◌, ◌≡◌, refl, List, [], ◌∷◌, All, some, arith, length, get_elem?,
}
use ros2_pubsub_benchmark.Prelude.Int.{ℤ, ◌≤ℤ◌, leb_ℤ}
use ros2_pubsub_benchmark.Stats.Sort.{
  IsAscending, sort, sort-IsAscending, sort-tally, sort-length, tally,
}

-- How many samples are at most v, and how many are at least v.
abbrev pub count_le : ℤ → List ℤ → ℕ
count_le v = tally (λ x. leb_ℤ x v)

abbrev pub count_ge : ℤ → List ℤ → ℕ
count_ge v = tally (λ x. leb_ℤ v x)

All-get_elem? :
    (a v : ℤ) (xs : List ℤ) (i : ℕ) → All (λ y. a ≤ℤ y) xs → get_elem? xs i ≡ some v → a ≤ℤ v
All-get_elem? a v [] i h e = ground arith
All-get_elem? a v (x ∷ xs) zero h e = ground arith
All-get_elem? a v (x ∷ xs) (suc i) h e = All-get_elem? a v xs i h.1 e

count_ge-All : (v : ℤ) (xs : List ℤ) → All (λ y. v ≤ℤ y) xs → count_ge v xs ≡ length xs
count_ge-All v [] h = refl
count_ge-All v (x ∷ xs) h = ground (arith, count_ge-All v xs h.1)

-- The value v stands at index i of the samples in ascending order: more than i of them are at most
-- v, and all but i of them are at least v.
pub record HasRank (v : ℤ) (i : ℕ) (xs : List ℤ) : Type 0 where
  pub above_rank : i < count_le v xs
  pub below_rank : length xs ≤ i + count_ge v xs

IsAscending-rank :
    (v : ℤ) (xs : List ℤ) (i : ℕ) → IsAscending xs → get_elem? xs i ≡ some v → HasRank v i xs
IsAscending-rank v [] i h e = ground arith
IsAscending-rank v (x ∷ xs) zero h e = ground (arith, count_ge-All x xs h.0)
IsAscending-rank v (x ∷ xs) (suc i) h e =
    let below = All-get_elem? x v xs i h.0 e in ground (arith, IsAscending-rank v xs i h.1 e)

pub sort-HasRank : (v : ℤ) (xs : List ℤ) (i : ℕ) → get_elem? (sort xs) i ≡ some v → HasRank v i xs
sort-HasRank v xs i e =
    let ranked = IsAscending-rank v (sort xs) i (sort-IsAscending xs) e in
    let le_eq = sort-tally (λ x. leb_ℤ x v) xs in
    let ge_eq = sort-tally (λ x. leb_ℤ v x) xs in omega (arith, le_eq, ge_eq, sort-length xs)

-- A later index of the sorted array holds no smaller value.
IsAscending-le :
    (v w : ℤ) (xs : List ℤ) (i j : ℕ)
    → IsAscending xs
    → i ≤ j
    → get_elem? xs i ≡ some v
    → get_elem? xs j ≡ some w
    → v ≤ℤ w
IsAscending-le v w [] i j h k e f = ground arith
IsAscending-le v w (x ∷ xs) zero zero h k e f = ground arith
IsAscending-le v w (x ∷ xs) zero (suc j) h k e f =
    let below = All-get_elem? x w xs j h.0 f in ground arith
IsAscending-le v w (x ∷ xs) (suc i) zero h k e f = absurd (omega arith)
IsAscending-le v w (x ∷ xs) (suc i) (suc j) h k e f =
    IsAscending-le v w xs i j h.1 (omega arith) e f

pub sort-le :
    (v w : ℤ) (xs : List ℤ) (i j : ℕ)
    → i ≤ j
    → get_elem? (sort xs) i ≡ some v
    → get_elem? (sort xs) j ≡ some w
    → v ≤ℤ w
sort-le v w xs i j = IsAscending-le v w (sort xs) i j (sort-IsAscending xs)
