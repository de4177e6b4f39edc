-- ===== src/ServiceBench/Queued/Onward.antt =====
-- What can be done next in the benchmark of psrv/src/srv.cpp.
use ros2_pubsub_benchmark.Prelude.{
  ℕ, suc, ◌≤◌, ◌<◌, ◌≡◌, refl, ap, ◌∙◌, ◌⊎◌, inl, inr, List, [], ◌∷◌, some, length, List-cases,
  arith,
}
use native.Mathlib.Decide.{dec_lt}
use ros2_pubsub_benchmark.Prelude.Int.{pos}
use ros2_pubsub_benchmark.Effect.{exited}
use ros2_pubsub_benchmark.ThriftBench.Sink.{num_relays}
use ros2_pubsub_benchmark.TopicBench.{Message, Topics}
use ros2_pubsub_benchmark.TopicBench.Line.{FifoLaws, row}
use ros2_pubsub_benchmark.TopicBench.Line.Drains.{Prompt}
use ros2_pubsub_benchmark.TopicBench.Endings.{Concluded}
use ros2_pubsub_benchmark.ServiceBench.Nodes.{Process, service_name, sink_service_turn}
use ros2_pubsub_benchmark.ServiceBench.Steps.{Reachable}
use ros2_pubsub_benchmark.ServiceBench.Invariant.{sink_service-returned, Reachable-Sound}
use ros2_pubsub_benchmark.ServiceBench.Endings.{sink_service_turn-ends}
use ros2_pubsub_benchmark.ServiceBench.Queued.{requests_at, under_way}
use ros2_pubsub_benchmark.ServiceBench.Queued.InTurn.{Reachable-InTurn}
use ros2_pubsub_benchmark.ServiceBench.Queued.Load.{total, total_le, furthest, length-row, load-le}
use ros2_pubsub_benchmark.ServiceBench.Queued.Numbers.{Ascending-length}
use ros2_pubsub_benchmark.ServiceBench.Queued.Rows.{take-row}
use ros2_pubsub_benchmark.TopicBench.Line.Drains.Concludes.{held_laws}
use ros2_pubsub_benchmark.ServiceBench.Queued.Progress.{
  to_go, Nearer, request-Nearer, relay-Nearer, receive-Nearer,
}

no_elements : (xs : List Message) → length xs ≡ 0 → xs ≡ []
no_elements [] h = refl
no_elements (y ∷ ys) h = absurd (omega arith)

module _ (m : Topics) (k : FifoLaws m) where
  -- The sink service is handed the client's last request, and ends the process.
  pub record Finishes (g : Process m) : Type 0 where
    pub final : Message
    pub alone : under_way m k g ≡ final ∷ []
    pub numbered : final.msgid ≡ pos 999
    pub rounds : g.round ≡ 1000
    pub sampled : length g.sink.samples ≡ 999
    pub next : Process m
    pub exit : sink_service_turn m g ≡ exited next
    pub concluded : Concluded g.clock next.sink

  -- The client has made its rounds and nothing is under way, but requests have been lost.
  pub record Stalled (g : Process m) : Type 0 where
    pub rounds : g.round ≡ 1000
    pub alone : under_way m k g ≡ []
    pub short : length g.sink.samples < 1000

  -- A turn of the sink service that ends the process takes the last request.
  pub exit-Finishes :
      (g next : Process m) (x : Message) (rest : m.State)
      → Reachable m g
      → m.take (service_name num_relays) g.requests ≡ some (x, rest)
      → sink_service_turn m g ≡ exited next
      → Concluded g.clock next.sink
      → Finishes g
  unfolding sink_service_turn
  exit-Finishes g next x rest r taken e c =
      let w = Reachable-InTurn m k g r in
      let sound = Reachable-Sound m (held_laws m k) g r in
      let shape = take-row m k x g.requests rest taken in
      let (a, numbered, low, left) = rw shape at w in
      let counted = Ascending-length (suc a) g.round _ left in
      let alone : row (suc num_relays) (requests_at m k rest) ≡ [] =
        no_elements (row (suc num_relays) (requests_at m k rest))
          (omega (arith, counted, low, full, sound.bounded)) in
      record {
        final = x;
        alone = shape ∙ ap (λ (xs : List Message). x ∷ xs) alone;
        numbered = numbered ∙ ap (λ n. pos n) (omega (arith, counted, low, full, sound.bounded));
        rounds = omega (arith, counted, low, full, sound.bounded);
        sampled = omega (arith, sound.unfinished, full);
        next = next;
        exit = e;
        concluded = c;
      }
    where
      full : 1000 ≤ suc (length g.sink.samples)
      full = elim (dec_lt (suc (length g.sink.samples)) 1000) [
        | yes below ↦
            let h = rw (taken, sink_service_turn) at e in
            absurd (cc (h, sink_service-returned (pos g.clock) x g.sink below))
        | no enough ↦ omega arith
      ]

  pub to_go-le : (g : Process m) → Reachable m g → to_go m k g ≤ 22000
  to_go-le g r =
      let sound = Reachable-Sound m (held_laws m k) g r in
      let counted = Ascending-length _ _ _ (Reachable-InTurn m k g r) in
      let measured = length-row (suc num_relays) (requests_at m k g.requests) in
      let loaded = load-le (suc num_relays) (λ i. length (requests_at m k g.requests i)) in
      omega (arith, sound.bounded, counted, measured, loaded)

  module _ (prompt : Prompt m k) where
    sink-progress :
        (g : Process m) (x : Message) (rest : m.State)
        → m.take (service_name num_relays) g.requests ≡ some (x, rest)
        → Reachable m g
        → Finishes g ⊎ Nearer m k g
    sink-progress g x rest taken r = elim (sink_service_turn-ends m (held_laws m k) g r) [
      | inl (g', ack, e) ↦ inr (receive-Nearer m k g g' x rest ack taken e)
      | inr (next, e, c) ↦ inl (exit-Finishes g next x rest r taken e c)
    ]

    pub progress : (g : Process m) → Reachable m g → Finishes g ⊎ (Nearer m k g ⊎ Stalled g)
    progress g r =
        let lengths = λ (i : ℕ). length (requests_at m k g.requests i) in
        let measured = length-row (suc num_relays) (requests_at m k g.requests) in
        elim (dec_lt 0 (total (suc num_relays) lengths)) [
          | no empty ↦ elim (dec_lt g.round 1000) [
            | yes going ↦
                let first = total_le (suc num_relays) 0 lengths (omega arith) in
                inr (inl (request-Nearer m k g going (omega (arith, first, empty))))
            | no over ↦
                let sound = Reachable-Sound m (held_laws m k) g r in
                inr (
                  inr (record {
                    rounds = omega (arith, over, sound.bounded);
                    alone = no_elements _ (omega (arith, empty, measured));
                    short = sound.unfinished;
                  }))
          ]
          | yes waiting ↦
              let f = furthest (suc num_relays) lengths waiting in
              handed f.queue f.within (List-cases (requests_at m k g.requests f.queue)) f.filled
                f.clear
        ]
      where
        handed :
            (i : ℕ)
            → i < suc num_relays
            → (requests_at m k g.requests i ≡ [])
              ⊎ ((x : Message) × (rest : List Message) × (requests_at m k g.requests i ≡ x ∷ rest))
            → 0 < length (requests_at m k g.requests i)
            → ((j : ℕ) → i < j → j < suc num_relays → length (requests_at m k g.requests j) ≡ 0)
            → Finishes g ⊎ (Nearer m k g ⊎ Stalled g)
        handed i within (inl e) first clear =
            absurd (omega (arith, first, ap (λ (xs : List Message). length xs) e))
        handed i within (inr (x, xs, e)) first clear =
            let (rest, taken) = prompt.hand_out (service_name i) x xs g.requests e in
            elim (dec_lt i num_relays) [
              | yes before ↦
                  let next = clear (suc i) (omega arith) (omega (arith, before)) in
                  inr (inl (relay-Nearer m k g i x rest before taken (omega (arith, next))))
              | no last ↦
                  let here : i ≡ num_relays = omega (arith, within, last) in
                  elim (sink-progress g x rest (rw here at taken) r) [
                    | inl finishes ↦ inl finishes
                    | inr nearer ↦ inr (inl nearer)
                  ]
            ]
