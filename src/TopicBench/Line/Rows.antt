-- ===== src/TopicBench/Line/Rows.antt =====
-- Rows of topics in which one topic, or two neighbours, have changed.
use ros2_pubsub_benchmark.Prelude.{
  ℕ, zero, suc, ◌<◌, ◌≡◌, ◌≢◌, refl, List, [], ◌++◌, append-nil, append_assoc, arith,
}
use native.Mathlib.Decide.{dec_lt}
use ros2_pubsub_benchmark.TopicBench.{Message}
use ros2_pubsub_benchmark.TopicBench.Line.{row}

module _ (w w' : ℕ → List Message) where
  pub row-same : (n : ℕ) → ((j : ℕ) → j < n → w j ≡ w' j) → row n w ≡ row n w'
  row-same zero h = refl
  row-same (suc n) h = rw (h n (omega arith), row-same n (λ j k. h j (omega arith))) refl

  -- The first topic is at the end of the row.
  pub row-first :
      (n : ℕ)
      → ((j : ℕ) → j ≢ 0 → w j ≡ w' j)
      → (before : List Message) × (row (suc n) w ≡ before ++ w 0)
        × (row (suc n) w' ≡ before ++ w' 0)
  row-first zero h = ([], append-nil (w 0), append-nil (w' 0))
  row-first (suc n) h =
      let (before, e, e') = row-first n h in
      let same : w (suc n) ≡ w' (suc n) = h (suc n) (λ z. absurd (omega arith)) in
      (w (suc n) ++ before, rw (append_assoc, e) refl, rw (append_assoc, e', same) refl)

  pub row-pair :
      (n i : ℕ)
      → suc i < n
      → ((j : ℕ) → j ≢ i → j ≢ suc i → w j ≡ w' j)
      → (before behind : List Message) × (row n w ≡ before ++ (w (suc i) ++ (w i ++ behind)))
        × (row n w' ≡ before ++ (w' (suc i) ++ (w' i ++ behind)))
  row-pair zero i low h = absurd (omega arith)
  row-pair (suc n) i low h = elim (dec_lt (suc i) n) [
    | yes below ↦
        let (before, behind, e, e') = row-pair n i below h in
        let same : w n ≡ w' n = h n (λ z. absurd (omega arith)) (λ z. absurd (omega arith)) in
        (w n ++ before, behind, rw (append_assoc, e) refl, rw (append_assoc, e', same) refl)
    | no above ↦
        let here : n ≡ suc i = omega arith in
        let rest =
          row-same i (λ j k. h j (λ z. absurd (omega arith)) (λ z. absurd (omega arith))) in
        ([], row i w, rw here refl, rw (here, rest) refl)
  ]
