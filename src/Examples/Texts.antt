-- ===== src/Examples/Texts.antt =====
-- Timings, printed with integers in decimal.
use ros2_pubsub_benchmark.Prelude.{
  ℕ, suc, ◌≤◌, ◌≡◌, ◌≢◌, refl, sym, ap, ◌↔◌, true, [], ◌∷◌, All, arith,
}
use ros2_pubsub_benchmark.Prelude.Int.{ℤ, pos, negsuc}
use ros2_pubsub_benchmark.Prelude.Bytes.{Bytes, bytes, to_string}
use ros2_pubsub_benchmark.Prelude.Digits.{to_string-inj, to_string-digits}
use ros2_pubsub_benchmark.Thrift.Timing.{Timing, new_timing, timing_eq}
use ros2_pubsub_benchmark.Thrift.Timing.Printing.{ToString, ToStringLaws, stream_insert}
use ros2_pubsub_benchmark.Thrift.Timing.Printing.Apart.{stream_insert_iff}

abbrev decimal : ℤ → Bytes
decimal (pos n) = to_string n
decimal (negsuc n) = b'-' ∷ to_string (suc n)

abbrev decimals : ToString
decimals = record { of_int64 = decimal; of_text = λ s. s }

no_sign : (n : ℕ) (ds : Bytes) → to_string n ≡ b'-' ∷ ds → ⊥
no_sign n ds e = let digits = rw e at (to_string-digits n) in omega (arith, digits.0)

decimal-inj : (x y : ℤ) → decimal x ≡ decimal y → x ≡ y
decimal-inj (pos m) (pos n) e = ap pos (to_string-inj m n e)
decimal-inj (pos m) (negsuc n) e = absurd (no_sign m _ e)
decimal-inj (negsuc m) (pos n) e = absurd (no_sign n _ (sym e))
decimal-inj (negsuc m) (negsuc n) e = let same = to_string-inj (suc m) (suc n) (cc (e)) in cc (same)

digits-no_comma : (ds : Bytes) → All (λ c. b'0' ≤ c) ds → All (λ c. c ≢ b',') ds
digits-no_comma [] h = tt
digits-no_comma (d ∷ ds) (digit, h) =
    ((λ e. absurd (omega (arith, digit, e))), digits-no_comma ds h)

decimal-no_comma : (x : ℤ) → All (λ c. c ≢ b',') (decimal x)
decimal-no_comma (pos n) = digits-no_comma (to_string n) (to_string-digits n)
decimal-no_comma (negsuc n) = (
  (λ e. absurd (omega (arith, e))),
  digits-no_comma (to_string (suc n)) (to_string-digits (suc n)),
)

decimals-ToStringLaws : ToStringLaws decimals
decimals-ToStringLaws = record {
  apart = decimal-inj;
  no_comma = decimal-no_comma;
  same_text = λ s. refl;
}

abbrev printed_timing : Timing
printed_timing = record new_timing { msgid = pos 7; nanosec = negsuc 4; source = bytes "a, b" }

stream_insert-runs :
    stream_insert decimals [] printed_timing ≡ bytes "timing(msgid=7, nanosec=-5, source=a, b)"
unfolding stream_insert to_string
stream_insert-runs = refl

stream_insert_iff_example :
    (stream_insert decimals [] printed_timing ≡ stream_insert decimals [] new_timing)
    ↔ (timing_eq printed_timing new_timing ≡ true)
stream_insert_iff_example =
    stream_insert_iff decimals decimals-ToStringLaws printed_timing new_timing []
