-- ===== src/Thrift/Timing/Equality.antt =====
-- operator== of timing.
use ros2_pubsub_benchmark.Prelude.{◌≡◌, ◌↔◌, true, ==_iff, arith}
use ros2_pubsub_benchmark.Prelude.Int.{ℤ, pos, negsuc}
use ros2_pubsub_benchmark.Prelude.Bytes.{same_bytes_iff}
use ros2_pubsub_benchmark.Thrift.Timing.{Timing, eq_int64, timing_eq}

pub eq_int64_iff : (x y : ℤ) → (eq_int64 x y ≡ true) ↔ (x ≡ y)
unfolding eq_int64
eq_int64_iff (pos m) (pos n) = (λ h. ground (arith, ==_iff m n), λ h. ground (arith, ==_iff m n))
eq_int64_iff (pos m) (negsuc n) = (λ h. cc, λ h. cc)
eq_int64_iff (negsuc m) (pos n) = (λ h. cc, λ h. cc)
eq_int64_iff (negsuc m) (negsuc n) =
    (λ h. ground (arith, ==_iff m n), λ h. ground (arith, ==_iff m n))

-- operator== of timing holds exactly when the message numbers, the times and the sources are the
-- same; the flags do not count.
pub timing_eq_iff :
    (t rhs : Timing)
    → (timing_eq t rhs ≡ true)
      ↔ ((t.msgid ≡ rhs.msgid) × (t.nanosec ≡ rhs.nanosec) × (t.source ≡ rhs.source))
unfolding timing_eq
timing_eq_iff t rhs = (
  λ h. ground (
    arith,
    eq_int64_iff t.msgid rhs.msgid,
    eq_int64_iff t.nanosec rhs.nanosec,
    same_bytes_iff t.source rhs.source,
  ),
  λ h. ground (
    arith,
    eq_int64_iff t.msgid rhs.msgid,
    eq_int64_iff t.nanosec rhs.nanosec,
    same_bytes_iff t.source rhs.source,
  ),
)
