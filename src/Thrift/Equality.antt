-- ===== src/Thrift/Equality.antt =====
-- operator== and operator!= of the generated structs in thrift-bench/gen-cpp/timing_types.h and
-- Bench.h.
pub mod Laws
use ros2_pubsub_benchmark.Prelude.{Bool, true, false, not, if◌then◌else◌}
use ros2_pubsub_benchmark.Thrift.Timing.{Timing, eq_int64, timing_eq}
use ros2_pubsub_benchmark.Thrift.Structs.{Args, Result}

unfoldable pub timing_ne : Timing → Timing → Bool
unfolding timing_eq
timing_ne t rhs = not (timing_eq t rhs)

unfoldable pub args_eq : Args → Args → Bool
unfolding timing_eq
args_eq a rhs = if not (timing_eq a.arg rhs.arg) then false else true

unfoldable pub args_ne : Args → Args → Bool
unfolding args_eq
args_ne a rhs = not (args_eq a rhs)

unfoldable pub result_eq : Result → Result → Bool
unfolding eq_int64
result_eq r rhs = if not (eq_int64 r.success rhs.success) then false else true

unfoldable pub result_ne : Result → Result → Bool
unfolding result_eq
result_ne r rhs = not (result_eq r rhs)
