-- ===== src/Stats/Report.antt =====
-- What `print_stats` prints.
use ros2_pubsub_benchmark.Prelude.{
  ℕ, ◌*◌, ◌/◌, ◌%◌, ◌^◌, ◌<◌, ◌≡◌, refl, List, Perm, Option, some, arith, length, get_elem?,
  get_elem?-lt_length,
}
use ros2_pubsub_benchmark.Prelude.Int.{ℤ, pos, ◌≤ℤ◌, div_ℤ}
use ros2_pubsub_benchmark.Stats.{Line, stats, int_of, p50_index, p90_index, print_stats}
use ros2_pubsub_benchmark.Stats.Sort.{sort, sort-eq_of_perm, sort-length}
use ros2_pubsub_benchmark.Stats.Percentile.{HasRank, sort-HasRank, sort-le}

int_of_lem : (w : ℕ) → w < 2 ^ 31 → int_of w ≡ pos w
unfolding int_of
int_of_lem w h = ground arith

p50_index_lem : (n : ℕ) → n < 2 ^ 31 → p50_index n ≡ pos (n / 2)
unfolding p50_index
p50_index_lem n h = int_of_lem (n / 2) (omega arith)

p90_index_lem : (n : ℕ) → n < 2 ^ 31 → p90_index n ≡ pos (n * 9 / 10)
unfolding p90_index
p90_index_lem n h =
    let e : n * 9 % 2 ^ 64 ≡ n * 9 = omega arith in rw e (int_of_lem (n * 9 / 10) (omega arith))

-- The summary of a list of samples.
pub record IsSummary (xs : List ℤ) (line : Option Line) : Type 0 where
  pub p50 : ℤ
  pub p90 : ℤ
  pub printed : line ≡ some (stats (length xs) (div_ℤ p50 1000) (div_ℤ p90 1000))
  pub p50_rank : HasRank p50 (length xs / 2) xs
  pub p90_rank : HasRank p90 (length xs * 9 / 10) xs
  pub ordered : p50 ≤ℤ p90

-- With at least one sample, and fewer than 2 ^ 31, both reads are within the array, and the summary
-- is the number of samples with two of the samples in microseconds: one of rank n / 2 and one of
-- rank 9 n / 10, the first no larger than the second.
pub print_stats-IsSummary :
    (xs : List ℤ) → 0 < length xs → length xs < 2 ^ 31 → IsSummary xs (print_stats xs)
unfolding print_stats
print_stats-IsSummary xs nonempty small = record {
  p50 = low.0;
  p90 = high.0;
  printed =
      rw
        (
          sort-length xs,
          p50_index_lem (length xs) small,
          p90_index_lem (length xs) small,
          low.1,
          high.1,
        )
        refl;
  p50_rank = sort-HasRank low.0 xs (length xs / 2) low.1;
  p90_rank = sort-HasRank high.0 xs (length xs * 9 / 10) high.1;
  ordered = sort-le low.0 high.0 xs (length xs / 2) (length xs * 9 / 10) (omega arith) low.1 high.1;
}
  where
    low : (v : ℤ) × (get_elem? (sort xs) (length xs / 2) ≡ some v)
    low = get_elem?-lt_length (sort xs) (length xs / 2) (omega (arith, sort-length xs))

    high : (v : ℤ) × (get_elem? (sort xs) (length xs * 9 / 10) ≡ some v)
    high = get_elem?-lt_length (sort xs) (length xs * 9 / 10) (omega (arith, sort-length xs))

-- The summary does not depend on the order in which the samples are met.
pub print_stats-eq_of_perm : {xs ys : List ℤ} → Perm xs ys → print_stats xs ≡ print_stats ys
unfolding print_stats
print_stats-eq_of_perm p = rw (sort-eq_of_perm p)
