-- ===== src/ThriftBench/Sink/Unordered.antt =====
-- SinkHandler over the unordered multiset itself: a list of samples up to its order.
use mathlib.Core.List.Perm
use mathlib.Core.List.{Perm}
use mathlib.Core.Quot
use mathlib.Core.Quot.{Quot, Quot-set}
use native.Mathlib.Nat.{ℕ_set}
use ros2_pubsub_benchmark.Prelude.{
  ℕ, suc, ◌≡◌, refl, sym, ◌∙◌, ap, inl, inr, List, [], ◌∷◌, ◌++◌, Option, none, some, length, leb,
  Bool-cases, Option-cases, if◌then◌else◌,
}
use ros2_pubsub_benchmark.Prelude.Int.{ℤ}
use ros2_pubsub_benchmark.Effect.{done, exited, undefined, M, onto}
use ros2_pubsub_benchmark.Stats.{Line, per_hop, print_stats}
use ros2_pubsub_benchmark.Stats.Sort.{sort-eq_of_perm, sort-length}
use ros2_pubsub_benchmark.Stats.Report.{print_stats-eq_of_perm}
use ros2_pubsub_benchmark.Thrift.Timing.{Timing}
use ros2_pubsub_benchmark.ThriftBench.Sink.{
  SinkHandler, nanosec_per_hop, insert_sample, finish, sink_bench,
}

abbrev pub Multiset : Type 0
Multiset = Quot (Perm {A = ℤ})

pub Option_Line-set : IsSet (Option Line)
Option_Line-set = hlevel ℕ_set

pub Perm-length : {xs ys : List ℤ} → Perm xs ys → length xs ≡ length ys
Perm-length {xs} {ys} p = sym (sort-length xs) ∙ ap length (sort-eq_of_perm p) ∙ sort-length ys

unfoldable pub size : Multiset → ℕ
size = Quot.lift ℕ_set length (λ xs ys h. Perm-length h)

unfoldable pub insert : ℤ → Multiset → Multiset
insert x = Quot.lift Quot-set (λ xs. Quot.mk (x ∷ xs)) (λ xs ys h. Quot.sound (Perm.cons x h))

unfoldable pub summary : Multiset → Option Line
summary = Quot.lift Option_Line-set print_stats (λ xs ys h. print_stats-eq_of_perm h)

pub record UnorderedSink : Type 0 where
  pub data_ : Multiset
  pub output : List Line

abbrev pub forget_order : SinkHandler → UnorderedSink
forget_order h = record { data_ = Quot.mk h.samples; output = h.output }

-- The sink's `bench`, on a multiset.
unfoldable pub unordered_bench : ℤ → Timing → M UnorderedSink ℤ
unfolding size insert summary
unordered_bench nanosec arg s =
    let hop = nanosec_per_hop nanosec arg.nanosec in
    let s' : UnorderedSink = record {
      data_ = insert hop s.data_;
      output = s.output ++ per_hop hop ∷ [];
    } in
    if leb 1000 (size s'.data_)
    then (elim (summary s'.data_) [
      | some line ↦ exited (record s' { output = s'.output ++ line ∷ [] })
      | none ↦ undefined s'
    ])
    else done arg.msgid s'

-- In whatever order the unordered multiset data_ is iterated, SinkHandler::bench does to the
-- samples and the output what it does on the multiset itself, a list of samples up to its order,
-- and ends in the same way: by the reply, or with the same summary printed.
pub sink_bench-unordered :
    (nanosec : ℤ) (arg : Timing) (h : SinkHandler)
    → unordered_bench nanosec arg (forget_order h) ≡ onto forget_order (sink_bench nanosec arg h)
unfolding unordered_bench sink_bench insert_sample finish
sink_bench-unordered nanosec arg h =
    let hop = nanosec_per_hop nanosec arg.nanosec in
    elim (Bool-cases (leb 1000 (suc (length h.samples)))) [
      | inl full ↦ rw full (elim (Option-cases (print_stats (hop ∷ h.samples))) [
        | inl unread ↦ rw (unread, finish) refl
        | inr (line, printed) ↦ rw (printed, finish) refl
      ])
      | inr few ↦ rw few refl
    ]
