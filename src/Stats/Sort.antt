-- ===== src/Stats/Sort.antt =====
-- std::sort on int64_t, of which only the sorted sequence is observable: modelled by insertion.
use mathlib.Core.List.Perm
use mathlib.Core.List.{Permᴰ}
use mathlib.Core.Logic.{∥∥₁_elim}
use ros2_pubsub_benchmark.Prelude.{
  ℕ, suc, ◌+◌, ◌≡◌, refl, ◌∙◌, inl, inr, List, [], ◌∷◌, Perm, All, Bool, true, false, arith, length,
  Bool-cases, if◌then◌else◌,
}
use ros2_pubsub_benchmark.Prelude.Int.{ℤ, ◌≤ℤ◌, leb_ℤ, ≤ℤ_trans, ≤ℤ_antisymm}

ordered_insert : ℤ → List ℤ → List ℤ
ordered_insert x [] = x ∷ []
ordered_insert x (y ∷ ys) = elim (leb_ℤ x y) [ true ↦ x ∷ y ∷ ys | false ↦ y ∷ ordered_insert x ys ]

unfoldable pub sort : List ℤ → List ℤ
unfolding ordered_insert
sort [] = []
sort (x ∷ xs) = ordered_insert x (sort xs)

-- Every element is at most all that follow it.
abbrev pub IsAscending : List ℤ → Type 0
IsAscending [] = Unit {0}
IsAscending (x ∷ xs) = All (λ y. x ≤ℤ y) xs × IsAscending xs

All-le_trans : (a b : ℤ) (xs : List ℤ) → a ≤ℤ b → All (λ y. b ≤ℤ y) xs → All (λ y. a ≤ℤ y) xs
All-le_trans a b [] h k = tt
All-le_trans a b (x ∷ xs) h k = (≤ℤ_trans a b x h k.0, All-le_trans a b xs h k.1)

All-ordered_insert :
    (a x : ℤ) (xs : List ℤ)
    → a ≤ℤ x
    → All (λ y. a ≤ℤ y) xs
    → All (λ y. a ≤ℤ y) (ordered_insert x xs)
unfolding ordered_insert
All-ordered_insert a x [] h k = (h, tt)
All-ordered_insert a x (y ∷ ys) h k = ground (arith, All-ordered_insert a x ys h k.1)

ordered_insert-IsAscending :
    (x : ℤ) (xs : List ℤ) → IsAscending xs → IsAscending (ordered_insert x xs)
unfolding ordered_insert
ordered_insert-IsAscending x [] h = (tt, tt)
ordered_insert-IsAscending x (y ∷ ys) h =
    ground
      (arith, ordered_insert-IsAscending x ys h.1, All-ordered_insert y x ys, All-le_trans x y ys)

pub sort-IsAscending : (xs : List ℤ) → IsAscending (sort xs)
unfolding sort
sort-IsAscending [] = tt
sort-IsAscending (x ∷ xs) = ordered_insert-IsAscending x (sort xs) (sort-IsAscending xs)

-- Insertions commute.
ordered_insert_comm :
    (x y : ℤ) (l : List ℤ)
    → ordered_insert x (ordered_insert y l) ≡ ordered_insert y (ordered_insert x l)
unfolding ordered_insert
ordered_insert_comm x y [] = ground (arith, ≤ℤ_antisymm x y)
ordered_insert_comm x y (z ∷ l) = ground (arith, ≤ℤ_antisymm x y, ordered_insert_comm x y l)

-- The order in which the values are met is lost.
pub sort-eq_of_perm : {xs ys : List ℤ} → Perm xs ys → sort xs ≡ sort ys
unfolding sort
sort-eq_of_perm {xs} {ys} p = ∥∥₁_elim p (ints_set (sort xs) (sort ys)) rearranged
  where
    ints_set : IsSet (List ℤ)
    ints_set = hlevel

    rearranged : {us vs : List ℤ} → Permᴰ us vs → sort us ≡ sort vs
    rearranged Permᴰ.nil = refl
    rearranged (Permᴰ.cons e q) = cc (e, rearranged q)
    rearranged (Permᴰ.swap {a = a} {b = b} {l = l} e f) =
        cc (e, f, ordered_insert_comm a b (sort l))
    rearranged (Permᴰ.trans q r) = rearranged q ∙ rearranged r

ordered_insert-perm : (x : ℤ) (xs : List ℤ) → Perm (ordered_insert x xs) (x ∷ xs)
unfolding ordered_insert
ordered_insert-perm x [] = Perm.rfl
ordered_insert-perm x (y ∷ ys) = elim (Bool-cases (leb_ℤ x y)) [
  | inl below ↦ rw (below, ordered_insert) Perm.rfl
  | inr above ↦
      rw (above, ordered_insert)
        (Perm.trans (Perm.cons y (ordered_insert-perm x ys)) (Perm.swap x y ys))
]

pub sort-perm : (xs : List ℤ) → Perm (sort xs) xs
unfolding sort
sort-perm [] = Perm.rfl
sort-perm (x ∷ xs) = Perm.trans (ordered_insert-perm x (sort xs)) (Perm.cons x (sort-perm xs))

sort_of_IsAscending : (xs : List ℤ) → IsAscending xs → sort xs ≡ xs
unfolding sort
sort_of_IsAscending [] h = refl
sort_of_IsAscending (x ∷ xs) h = rw (sort_of_IsAscending xs h.1) (stays xs h.0)
  where
    stays : (ys : List ℤ) → All (λ y. x ≤ℤ y) ys → ordered_insert x ys ≡ x ∷ ys
    stays [] k = refl
    stays (y ∷ ys) k = ground arith

ordered_insert-length : (x : ℤ) (xs : List ℤ) → length (ordered_insert x xs) ≡ suc (length xs)
unfolding ordered_insert
ordered_insert-length x [] = refl
ordered_insert-length x (y ∷ ys) = ground (arith, ordered_insert-length x ys)

pub sort-length : (xs : List ℤ) → length (sort xs) ≡ length xs
unfolding sort
sort-length [] = refl
sort-length (x ∷ xs) = omega (arith, ordered_insert-length x (sort xs), sort-length xs)

-- How many of the values pass a test.
abbrev pub tally : (ℤ → Bool) → List ℤ → ℕ
tally p [] = 0
tally p (x ∷ xs) = (if p x then 1 else 0) + tally p xs

ordered_insert-tally :
    (p : ℤ → Bool) (x : ℤ) (xs : List ℤ) → tally p (ordered_insert x xs) ≡ tally p (x ∷ xs)
unfolding ordered_insert
ordered_insert-tally p x [] = refl
ordered_insert-tally p x (y ∷ ys) = ground (arith, ordered_insert-tally p x ys)

pub sort-tally : (p : ℤ → Bool) (xs : List ℤ) → tally p (sort xs) ≡ tally p xs
unfolding sort
sort-tally p [] = refl
sort-tally p (x ∷ xs) = omega (arith, ordered_insert-tally p x (sort xs), sort-tally p xs)
