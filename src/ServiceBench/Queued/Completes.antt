-- ===== src/ServiceBench/Queued/Completes.antt =====
-- Turns that bring the benchmark of psrv/src/srv.cpp to its end, and when there are any.
use ros2_pubsub_benchmark.Prelude.{
  ◌↔◌, ◌≢◌, ◌<◌, ◌+◌, ℕ, zero, suc, ◌≤◌, ◌≡◌, ap, ◌⊎◌, inl, inr, List, length, arith,
}
use ros2_pubsub_benchmark.Effect.{exited}
use ros2_pubsub_benchmark.ThriftBench.Sink.{num_relays}
use ros2_pubsub_benchmark.TopicBench.{Message, Topics}
use ros2_pubsub_benchmark.TopicBench.Line.{FifoLaws}
use ros2_pubsub_benchmark.TopicBench.Line.Drains.{Prompt}
use ros2_pubsub_benchmark.ServiceBench.Nodes.{Process, service_name, sink_service_turn}
use ros2_pubsub_benchmark.ServiceBench.Steps.{Turn, Reachable, after}
use ros2_pubsub_benchmark.ServiceBench.Invariant.{Reachable-Sound}
use ros2_pubsub_benchmark.ServiceBench.Endings.{sink_service_turn-ends}
use ros2_pubsub_benchmark.ServiceBench.Queued.{under_way, NothingLost}
use ros2_pubsub_benchmark.ServiceBench.Queued.InTurn.{Reachable-InTurn}
use ros2_pubsub_benchmark.ServiceBench.Queued.Numbers.{Ascending-length}
use ros2_pubsub_benchmark.TopicBench.Line.Drains.Concludes.{held_laws}
use ros2_pubsub_benchmark.ServiceBench.Queued.Progress.{Busy-Turn, to_go, Nearer}
use ros2_pubsub_benchmark.ServiceBench.Queued.Onward.{Finishes, exit-Finishes, to_go-le, progress}
use ros2_pubsub_benchmark.ServiceBench.Queued.Best.{at_best, Turn-at_best}
use ros2_pubsub_benchmark.Prelude.{Option-cases, inl, inr}

-- So many turns lead to the state `last`.
pub data Course (m : Topics) (last : Process m) : ℕ → Process m → Type 0 where
  there : Course m last 0 last
  turn : (n : ℕ) (g g' : Process m) → Turn m g g' → Course m last n g' → Course m last (suc n) g

Course-Reachable :
    (m : Topics) (last g : Process m) (n : ℕ) → Course m last n g → Reachable m g → Reachable m last
Course-Reachable m last _ _ there r = r
Course-Reachable m last _ _ (turn n g g' t c) r = Course-Reachable m last g' n c (after g g' r t)

module _ (m : Topics) (k : FifoLaws m) where
  pub record Completes (g : Process m) : Type 0 where
    pub turns : ℕ
    pub few : turns ≤ 22000
    pub last : Process m
    pub path : Course m last turns g
    pub finishes : Finishes m k last

  Course-at_best :
      (last g : Process m) (n : ℕ) → Course m last n g → at_best m k last ≤ at_best m k g
  Course-at_best last _ _ there = omega arith
  Course-at_best last _ _ (turn n g g' t c) =
      omega (arith, Turn-at_best m k g g' t, Course-at_best last g' n c)

  -- If the sink service can end the process at all, it is with every request sampled.
  exit-at_best :
      (g next : Process m)
      → Reachable m g
      → sink_service_turn m g ≡ exited next
      → at_best m k g ≡ 1000
  unfolding sink_service_turn
  exit-at_best g next r e = elim (Option-cases (m.take (service_name num_relays) g.requests)) [
    | inl idle ↦ let h = rw (idle, sink_service_turn) at e in absurd (cc (h))
    | inr ((x, rest), taken) ↦ elim (sink_service_turn-ends m (held_laws m k) g r) [
      | inl (g', ack, e') ↦ absurd (cc (e, e'))
      | inr (next', e', c) ↦
          let f = exit-Finishes m k g next' x rest r taken e' c in
          let one = ap (λ (xs : List Message). length xs) f.alone in
          omega (arith, one, f.rounds, f.sampled)
    ]
  ]

  completed-NothingLost :
      (g last next : Process m) (n : ℕ)
      → Reachable m g
      → Course m last n g
      → sink_service_turn m last ≡ exited next
      → NothingLost m k g
  completed-NothingLost g last next n r path e =
      let sound = Reachable-Sound m (held_laws m k) g r in
      let at_most = Ascending-length _ _ _ (Reachable-InTurn m k g r) in
      let all = exit-at_best last next (Course-Reachable m last g n path r) e in
      omega (arith, sound.bounded, at_most, all, Course-at_best last g n path)

  -- If services hand requests out in their order, and drop the oldest only when ten wait, then once
  -- a request has been lost, so that the samples and the requests under way are together fewer than
  -- the rounds of the client, no turns of the client thread and the services ever lead to one of
  -- the sink service that ends the process.
  pub lost-Unending :
      (g last next : Process m) (n : ℕ)
      → Reachable m g
      → length g.sink.samples + length (under_way m k g) < g.round
      → Course m last n g
      → sink_service_turn m last ≢ exited next
  lost-Unending g last next n r lost path e =
      omega (arith, lost, completed-NothingLost g last next n r path e)

  module _ (prompt : Prompt m k) where
    onward : (g : Process m) → Reachable m g → NothingLost m k g → Finishes m k g ⊎ Nearer m k g
    onward g r kept = elim (progress m k prompt g r) [
      | inl f ↦ inl f
      | inr (inl nearer) ↦ inr nearer
      | inr (inr stalled) ↦
          let nothing = ap (λ (xs : List Message). length xs) stalled.alone in
          absurd (omega (arith, kept, nothing, stalled.rounds, stalled.short))
    ]

    complete :
        (fuel : ℕ) (g : Process m)
        → to_go m k g ≤ fuel
        → Reachable m g
        → NothingLost m k g
        → (n : ℕ) × (last : Process m) × (n ≤ fuel) × Course m last n g × Finishes m k last
    complete zero g enough r kept = elim (onward g r kept) [
      | inl f ↦ (0, g, omega arith, there, f)
      | inr nearer ↦ absurd (omega (arith, nearer.less))
    ]
    complete (suc fuel) g enough r kept = elim (onward g r kept) [
      | inl f ↦ (0, g, omega arith, there, f)
      | inr nearer ↦
          let step = Busy-Turn m g nearer.next nearer.turn in
          let (n, last, few, path, f) =
            complete fuel nearer.next (omega (arith, nearer.less)) (after g nearer.next r step)
              (nearer.keeps kept) in
          (suc n, last, omega arith, turn n g nearer.next step path, f)
    ]

    -- If services hand requests out in their order, drop the oldest only when ten wait, and have
    -- none late, then from a state that the client thread and the services can reach the benchmark
    -- can be completed exactly if no request has been lost: the samples and the requests under way
    -- are together as many as the rounds of the client. Completed means that at most 22000 turns
    -- lead to a state in which the client has made its 1000 rounds, the last request, number 999,
    -- is the only one under way, and the sink service's turn takes it and ends the process, with
    -- the summary of exactly 1000 samples printed, each a latency that is not negative and fits
    -- into the time since the clock's start.
    pub Reachable-Completes : (g : Process m) → Reachable m g → NothingLost m k g ↔ Completes g
    Reachable-Completes g r = (
      λ kept.
          let (n, last, few, path, f) = complete (to_go m k g) g (omega arith) r kept in
          record {
            turns = n;
            few = omega (arith, few, to_go-le m k g r);
            last = last;
            path = path;
            finishes = f;
          },
      λ c. completed-NothingLost g c.last c.finishes.next c.turns r c.path c.finishes.exit,
    )
