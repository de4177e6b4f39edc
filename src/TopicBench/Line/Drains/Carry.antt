-- ===== src/TopicBench/Line/Drains/Carry.antt =====
-- The way of one message to the sink, when the topics behind it are empty.
use ros2_pubsub_benchmark.Prelude.{
  ℕ, zero, suc, ◌+◌, ◌<◌, ◌≡◌, ◌≢◌, refl, ap, sym, ◌∙◌, ◌⊎◌, inl, inr, List, [], ◌∷◌, some, length,
  arith,
}
use native.Mathlib.Decide.{dec_lt}
use ros2_pubsub_benchmark.Prelude.Int.{pos}
use ros2_pubsub_benchmark.Effect.{done}
use ros2_pubsub_benchmark.ThriftBench.Sink.{num_relays, nanosec_per_hop}
use ros2_pubsub_benchmark.TopicBench.{Message, Topics}
use ros2_pubsub_benchmark.TopicBench.Nodes.{
  Graph, topic_name, relay_turn, relay_listen, record_sample, sink_turn,
}
use ros2_pubsub_benchmark.TopicBench.Steps.{relayed, received}
use ros2_pubsub_benchmark.TopicBench.Invariant.{sink_listen-returned, sink_listen-exited}
use ros2_pubsub_benchmark.TopicBench.Line.{FifoLaws, waiting_at}
use ros2_pubsub_benchmark.TopicBench.Line.Refinement.{take-others, publish-others}
use ros2_pubsub_benchmark.TopicBench.Line.Drains.{
  Prompt, Steps, none_yet, then, Steps-join, Clear, Carried, Ended,
}

module _ (m : Topics) (k : FifoLaws m) (prompt : Prompt m k) where
  -- The sink takes a message.
  carry_in :
      (g : Graph m) (x : Message) (xs : List Message)
      → waiting_at m k g.topics num_relays ≡ x ∷ xs
      → length g.sink.samples < 1000
      → ((g' : Graph m) × Carried m k num_relays xs g g') ⊎ Ended m k g
  unfolding sink_turn record_sample
  carry_in g x xs e few =
      let (rest, taken) = prompt.hand_out (topic_name num_relays) x xs g.topics e in
      let front = k.take_waiting (topic_name num_relays) x g.topics rest taken in
      elim (dec_lt (suc (length g.sink.samples)) 1000) [
        | yes below ↦
            let g' : Graph m = record g {
              topics = rest;
              sink = record_sample (nanosec_per_hop (pos g.clock) x.nanosec) g.sink;
            } in
            inl (
              g',
              record {
                path = then g g' none_yet (
                    received g g' (
                      rw (taken, sink_turn, sink_listen-returned (pos g.clock) x g.sink below)
                        refl));
                clear = λ j high low. absurd (omega (arith, high, low));
                left = cc (e, front);
                before = λ j less. sym (
                    take-others m k num_relays j x g.topics rest taken
                      (λ z. absurd (omega (arith, z, less))));
                more = refl;
                few = below;
                counted = refl;
              },
            )
        | no above ↦
            let (h', ends, f) =
              sink_listen-exited (pos g.clock) x g.sink (omega arith) (omega arith) in
            inr (record {
              last = g;
              path = none_yet;
              after = record g { topics = rest; sink = h' };
              exit = rw (taken, sink_turn, ends) refl;
            })
      ]

  relay_turn-taken :
      (g : Graph m) (n : ℕ) (x : Message) (rest : m.State)
      → m.take (topic_name n) g.topics ≡ some (x, rest)
      → relay_turn m n g ≡ done tt (record g { topics = m.publish (topic_name (suc n)) x rest })
  unfolding relay_turn relay_listen
  relay_turn-taken g n x rest taken =
      let plus : n + 1 ≡ suc n = omega arith in
      rw (taken, relay_turn)
        (ap (λ (i : ℕ). done tt (record g { topics = m.publish (topic_name i) x rest })) plus)

  -- A relay's turn, when the next topic is empty.
  relay_step :
      (g : Graph m) (n : ℕ) (x : Message) (xs : List Message)
      → n < num_relays
      → waiting_at m k g.topics n ≡ x ∷ xs
      → Clear m k g n
      → (g' : Graph m) × Steps m g g'
        × (g'.sink ≡ g.sink)
        × (g'.msgid ≡ g.msgid)
        × (waiting_at m k g'.topics (suc n) ≡ x ∷ [])
        × (waiting_at m k g'.topics n ≡ xs)
        × ((j : ℕ) → j ≢ n → j ≢ suc n → waiting_at m k g'.topics j ≡ waiting_at m k g.topics j)
  relay_step g n x xs within e clear =
      let (rest, taken) = prompt.hand_out (topic_name n) x xs g.topics e in
      let s = m.publish (topic_name (suc n)) x rest in
      let g' : Graph m = record g { topics = s } in
      let front = k.take_waiting (topic_name n) x g.topics rest taken in
      let next : waiting_at m k rest (suc n) ≡ [] =
        sym (take-others m k n (suc n) x g.topics rest taken (λ z. absurd (omega (arith, z))))
        ∙ clear (suc n) (omega arith) (omega arith) in
      (
        g',
        then g g' none_yet (relayed g g' n within (relay_turn-taken g n x rest taken)),
        refl,
        refl,
        k.publish_room (topic_name (suc n)) x rest (rw next (omega arith)) ∙ rw next refl,
        sym (publish-others m k (suc n) n x rest (λ z. absurd (omega (arith, z)))) ∙ cc (e, front),
        λ j d d'.
            sym (
              take-others m k n j x g.topics rest taken d ∙ publish-others m k (suc n) j x rest d'),
      )

  -- The message goes on, one topic further.
  carried_on :
      (g g1 g' : Graph m) (n : ℕ) (xs : List Message)
      → Steps m g g1
      → g1.sink ≡ g.sink
      → g1.msgid ≡ g.msgid
      → waiting_at m k g1.topics n ≡ xs
      → ((j : ℕ) → j ≢ n → j ≢ suc n → waiting_at m k g1.topics j ≡ waiting_at m k g.topics j)
      → Carried m k (suc n) [] g1 g'
      → Carried m k n xs g g'
  carried_on g g1 g' n xs path same same_count left others c = record {
    path = Steps-join m g g1 g' path c.path;
    clear = λ j high low. elim (dec_lt (suc n) j) [
      | yes above ↦ c.clear j above low
      | no below ↦ let here : j ≡ suc n = omega arith in rw here c.left
    ];
    left = c.before n (omega arith) ∙ left;
    before = λ j less.
        c.before j (omega arith)
        ∙ others j (λ z. absurd (omega (arith, z, less))) (λ z. absurd (omega (arith, z, less)));
    more = rw same at c.more;
    few = c.few;
    counted = c.counted ∙ same_count;
  }

  pub carry :
      (hops n : ℕ)
      → n + hops ≡ num_relays
      → (g : Graph m) (x : Message) (xs : List Message) → waiting_at m k g.topics n ≡ x ∷ xs
      → Clear m k g n
      → length g.sink.samples < 1000
      → ((g' : Graph m) × Carried m k n xs g g') ⊎ Ended m k g
  carry zero n h g x xs e clear few =
      let last : n ≡ num_relays = omega arith in rw last (carry_in g x xs (rw last at e) few)
  carry (suc hops) n h g x xs e clear few =
      let (g1, path, same, same_count, next, left, others) =
        relay_step g n x xs (omega arith) e clear in
      let clear1 : Clear m k g1 (suc n) = λ j high low.
        others j (λ z. absurd (omega (arith, z, high))) (λ z. absurd (omega (arith, z, high)))
        ∙ clear j (omega arith) low in
      elim (carry hops (suc n) (omega arith) g1 x [] next clear1 (rw same few)) [
        | inl (g', c) ↦ inl (g', carried_on g g1 g' n xs path same same_count left others c)
        | inr ended ↦ inr (record {
          last = ended.last;
          path = Steps-join m g g1 ended.last path ended.path;
          after = ended.after;
          exit = ended.exit;
        })
      ]
