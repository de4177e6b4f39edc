-- ===== src/ThriftBench/Sink/Laws.antt =====
-- What the sink answers, records and prints.
use ros2_pubsub_benchmark.Prelude.{
  ℕ, suc, ◌+◌, ◌-◌, ◌/◌, ◌^◌, ◌≤◌, ◌<◌, ◌≡◌, refl, [], ◌∷◌, ◌++◌, some, inl, inr, Option-cases,
  length, le→leb, lt→leb,
}
use ros2_pubsub_benchmark.Prelude.Int.{ℤ, pos, sub_int64-pos, div_ℤ}
use ros2_pubsub_benchmark.Effect.{done, exited}
use ros2_pubsub_benchmark.Stats.{Line, stats, print_stats}
use ros2_pubsub_benchmark.Stats.Report.{IsSummary, print_stats-IsSummary}
use ros2_pubsub_benchmark.Thrift.Timing.{Timing}
use ros2_pubsub_benchmark.ThriftBench.Sink.{
  SinkHandler, num_relays, nanosec_per_hop, insert_sample, finish, sink_bench,
}

-- Between two readings of one clock that are not negative, below 2 ^ 63, and in order, the sample
-- is their difference divided by the number of hops, rounded down: the subtraction on int64_t does
-- not wrap.
pub nanosec_per_hop-pos :
    (now stamp : ℕ)
    → now < 2 ^ 63
    → stamp ≤ now
    → nanosec_per_hop (pos now) (pos stamp) ≡ pos ((now - stamp) / (num_relays + 1))
unfolding nanosec_per_hop
nanosec_per_hop-pos now stamp fits later = rw (sub_int64-pos now stamp fits later) refl

-- Below 1000 samples a request is recorded and acknowledged by its number.
pub sink_bench-returned :
    (nanosec : ℤ) (arg : Timing) (h : SinkHandler)
    → suc (length h.samples) < 1000
    → sink_bench nanosec arg h
      ≡ done arg.msgid (insert_sample (nanosec_per_hop nanosec arg.nanosec) h)
unfolding sink_bench
sink_bench-returned nanosec arg h below = rw (lt→leb 1000 (suc (length h.samples)) below) refl

-- From 1000 samples on, the request is recorded and the process prints and ends.
pub sink_bench-finish :
    (nanosec : ℤ) (arg : Timing) (h : SinkHandler)
    → 1000 ≤ suc (length h.samples)
    → sink_bench nanosec arg h ≡ finish (insert_sample (nanosec_per_hop nanosec arg.nanosec) h)
unfolding sink_bench
sink_bench-finish nanosec arg h full = rw (le→leb 1000 (suc (length h.samples)) full) refl

-- The end of the process: the summary of all samples behind what has been printed.
pub record Finished (h h' : SinkHandler) : Type 0 where
  pub line : Line
  pub summary : IsSummary h.samples (some line)
  pub last : h' ≡ record { samples = h.samples; output = h.output ++ line ∷ [] }

pub finish-Finished :
    {A : Type 0} (h : SinkHandler)
    → 0 < length h.samples
    → length h.samples < 2 ^ 31
    → (h' : SinkHandler) × (finish {A = A} h ≡ exited h') × Finished h h'
unfolding finish
finish-Finished h nonempty small =
    let summary = print_stats-IsSummary h.samples nonempty small in
    let line : Line = stats (length h.samples) (div_ℤ summary.p50 1000) (div_ℤ summary.p90 1000) in
    (
      record h { output = h.output ++ line ∷ [] },
      rw (summary.printed, finish) refl,
      record { line = line; summary = rw summary.printed at summary; last = refl },
    )

-- Behind the summary nothing returns.
pub finish-lasts : {A : Type 0} (a : A) (h h' : SinkHandler) → finish {A = A} h ≡ done a h' → ⊥
unfolding finish
finish-lasts a h h' e = elim (Option-cases (print_stats h.samples)) [
  | inl unread ↦ let f = rw (unread, finish) at e in absurd (cc (f))
  | inr (line, printed) ↦ let f = rw (printed, finish) at e in absurd (cc (f))
]
