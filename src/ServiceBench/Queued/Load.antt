-- ===== src/ServiceBench/Queued/Load.antt =====
-- How many hops the messages of a row of queues have before them, by the queues' lengths.
use ros2_pubsub_benchmark.Prelude.{
  ℕ, zero, suc, ◌+◌, ◌*◌, ◌≤◌, ◌<◌, ◌≡◌, ◌≢◌, refl, List, length, length-append, arith,
}
use native.Mathlib.Decide.{dec_lt}
use ros2_pubsub_benchmark.TopicBench.{Message}
use ros2_pubsub_benchmark.TopicBench.Line.{row}

-- The messages in the queues 0, …, n - 1.
abbrev pub total : ℕ → (ℕ → ℕ) → ℕ
total zero c = 0
total (suc n) c = c n + total n c

-- A message in queue i has n - i hops before it, out of queue n - 1 included.
abbrev pub load : ℕ → (ℕ → ℕ) → ℕ
load zero c = 0
load (suc n) c = total (suc n) c + load n c

pub length-row : (n : ℕ) (w : ℕ → List Message) → length (row n w) ≡ total n (λ i. length (w i))
length-row zero w = refl
length-row (suc n) w = omega (arith, length-row n w, length-append (w n) (row n w))

pub total_le : (n i : ℕ) (c : ℕ → ℕ) → i < n → c i ≤ total n c
total_le zero i c h = absurd (omega arith)
total_le (suc n) i c h = elim (dec_lt i n) [
  | yes below ↦ omega (arith, total_le n i c below)
  | no last ↦ let here : i ≡ n = omega arith in rw here (omega arith)
]

-- The last of the queues that are not empty.
pub record Furthest (n : ℕ) (c : ℕ → ℕ) : Type 0 where
  pub queue : ℕ
  pub within : queue < n
  pub filled : 0 < c queue
  pub clear : (j : ℕ) → queue < j → j < n → c j ≡ 0

pub furthest : (n : ℕ) (c : ℕ → ℕ) → 0 < total n c → Furthest n c
furthest zero c h = absurd (omega arith)
furthest (suc n) c h = elim (dec_lt 0 (c n)) [
  | yes here ↦ record {
    queue = n;
    within = omega arith;
    filled = here;
    clear = λ j above below. absurd (omega (arith, above, below));
  }
  | no empty ↦
      let f = furthest n c (omega arith) in
      record {
        queue = f.queue;
        within = omega (arith, f.within);
        filled = f.filled;
        clear = λ j above below. elim (dec_lt j n) [
          | yes lower ↦ f.clear j above lower
          | no last ↦
              let here : j ≡ n = omega (arith, below, last) in rw here (omega (arith, empty))
        ];
      }
]

module _ (c c' : ℕ → ℕ) where
  total-same : (n : ℕ) → ((j : ℕ) → j < n → c j ≡ c' j) → total n c ≡ total n c'
  total-same zero h = refl
  total-same (suc n) h = omega (arith, h n (omega arith), total-same n (λ j k. h j (omega arith)))

  load-same : (n : ℕ) → ((j : ℕ) → j < n → c j ≡ c' j) → load n c ≡ load n c'
  load-same zero h = refl
  load-same (suc n) h = omega (arith, total-same (suc n) h, load-same n (λ j k. h j (omega arith)))

  -- The last queue hands a message out.
  pub load_taken :
      (n : ℕ)
      → c n ≡ suc (c' n)
      → ((j : ℕ) → j < n → c j ≡ c' j)
      → load (suc n) c ≡ suc (load (suc n) c')
  load_taken n e h = omega (arith, e, total-same n h, load-same n h)

  total_moved :
      (n i : ℕ)
      → suc i < n
      → c i ≡ suc (c' i)
      → c' (suc i) ≤ suc (c (suc i))
      → ((j : ℕ) → j ≢ i → j ≢ suc i → c j ≡ c' j)
      → total n c' ≤ total n c
  total_moved zero i low out into h = absurd (omega arith)
  total_moved (suc n) i low out into h = elim (dec_lt (suc i) n) [
    | yes below ↦
        let same : c n ≡ c' n = h n (λ z. absurd (omega arith)) (λ z. absurd (omega arith)) in
        omega (arith, same, total_moved n i below out into h)
    | no above ↦
        let here : n ≡ suc i = omega arith in
        let rest =
          total-same i (λ j k. h j (λ z. absurd (omega arith)) (λ z. absurd (omega arith))) in
        rw here (omega (arith, rest, out, into))
  ]

  -- A message goes from one queue to the next, which drops another one if it is full.
  pub load_moved :
      (n i : ℕ)
      → suc i < n
      → c i ≡ suc (c' i)
      → c' (suc i) ≤ suc (c (suc i))
      → ((j : ℕ) → j ≢ i → j ≢ suc i → c j ≡ c' j)
      → load n c' < load n c
  load_moved zero i low out into h = absurd (omega arith)
  load_moved (suc n) i low out into h = elim (dec_lt (suc i) n) [
    | yes below ↦
        omega (arith, total_moved (suc n) i low out into h, load_moved n i below out into h)
    | no above ↦
        let here : n ≡ suc i = omega arith in
        let rest =
          load_taken i out (λ j k. h j (λ z. absurd (omega arith)) (λ z. absurd (omega arith))) in
        let same = total_moved (suc (suc i)) i (omega arith) out into h in
        rw here (omega (arith, rest, same))
  ]

  total_added :
      (n : ℕ)
      → c' 0 ≤ suc (c 0)
      → ((j : ℕ) → j ≢ 0 → c j ≡ c' j)
      → total (suc n) c' ≤ suc (total (suc n) c)
  total_added zero e h = omega (arith, e)
  total_added (suc n) e h = omega (arith, h (suc n) (λ z. absurd (omega arith)), total_added n e h)

  -- A new message for the first queue, which drops another one if it is full.
  pub load_added :
      (n : ℕ) → c' 0 ≤ suc (c 0) → ((j : ℕ) → j ≢ 0 → c j ≡ c' j) → load n c' ≤ load n c + n
  load_added zero e h = omega arith
  load_added (suc n) e h = omega (arith, total_added n e h, load_added n e h)

pub load-le : (n : ℕ) (c : ℕ → ℕ) → load n c ≤ n * total n c
load-le zero c = omega arith
load-le (suc n) c = let less = load-le n c in grind arith
