-- ===== src/Stats.antt =====
-- The summary that each sink prints: `print_stats` of thrift-bench/bench.cpp. The same lines stand
-- in grpc-bench/gbench/bench.cpp, pnode/src/pub.cpp and, inline, in psrv/src/srv.cpp.
pub mod Sort
pub mod Percentile
pub mod Report
use ros2_pubsub_benchmark.Prelude.{
  ℕ, ◌-◌, ◌*◌, ◌/◌, ◌%◌, ◌^◌, List, Option, none, some, length, get_elem?, ltb, if◌then◌else◌,
}
use ros2_pubsub_benchmark.Prelude.Int.{ℤ, pos, negsuc, div_ℤ}
use ros2_pubsub_benchmark.Prelude.Bytes.{Bytes}
use Sort.{sort}

-- What the programs write on std::cout: a sample, the summary with the number of data points and
-- the two percentiles in microseconds, and the status of a request with its acknowledgement.
pub data Line : Type 0 where
  per_hop : ℤ → Line
  stats : ℕ → ℤ → ℤ → Line
  status : Bytes → ℤ → Line

-- The conversion of a size_t to an int.
unfoldable pub int_of : ℕ → ℤ
int_of w = if ltb (w % 2 ^ 32) (2 ^ 31) then pos (w % 2 ^ 32) else negsuc (2 ^ 32 - w % 2 ^ 32 - 1)

unfoldable pub p50_index : ℕ → ℤ
unfolding int_of
p50_index size = int_of (size / 2)

-- The product is of type size_t, and wraps.
unfoldable pub p90_index : ℕ → ℤ
unfolding int_of
p90_index size = int_of (size * 9 % 2 ^ 64 / 10)

-- `array[i]`. `none` is a read out of bounds: a negative index is a huge size_t.
unfoldable pub at : List ℤ → ℤ → Option ℤ
at array (pos i) = get_elem? array i
at array (negsuc i) = none

abbrev print_at : ℕ → Option ℤ → Option ℤ → Option Line
print_at size (some p50) (some p90) = some (stats size (div_ℤ p50 1000) (div_ℤ p90 1000))
print_at size (some p50) none = none
print_at size none p90 = none

-- The argument is the content of the unordered_multiset in the order in which cbegin .. cend meets
-- it. `none` stands for undefined behaviour.
unfoldable pub print_stats : List ℤ → Option Line
unfolding sort p50_index p90_index at div_ℤ
print_stats samples =
    let array = sort samples in
    let size = length array in print_at size (at array (p50_index size)) (at array (p90_index size))
