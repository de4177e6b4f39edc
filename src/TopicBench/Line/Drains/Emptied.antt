-- ===== src/TopicBench/Line/Drains/Emptied.antt =====
-- The topics are emptied one by one, the last one first.
use ros2_pubsub_benchmark.Prelude.{
  ℕ, zero, suc, ◌+◌, ◌-◌, ◌≤◌, ◌<◌, ◌≡◌, refl, ◌∙◌, ◌⊎◌, inl, inr, List, [], ◌∷◌, length,
  length-append, arith,
}
use native.Mathlib.Decide.{dec_lt}
use ros2_pubsub_benchmark.ThriftBench.Sink.{num_relays}
use ros2_pubsub_benchmark.TopicBench.{Message, Topics}
use ros2_pubsub_benchmark.TopicBench.Nodes.{Graph}
use ros2_pubsub_benchmark.TopicBench.Line.{FifoLaws, row, waiting_at, line_of}
use ros2_pubsub_benchmark.TopicBench.Line.Rows.{row-same}
use ros2_pubsub_benchmark.TopicBench.Line.Drains.{Prompt, Steps, none_yet, Steps-join, Clear, Ended}
use ros2_pubsub_benchmark.TopicBench.Line.Drains.Carry.{carry}

module _ (m : Topics) (k : FifoLaws m) where
  -- The topics from number n on are empty, and `count` messages have reached the sink.
  pub record Drained (n count : ℕ) (g g' : Graph m) : Type 0 where
    pub path : Steps m g g'
    pub clear : (j : ℕ) → n ≤ j → j ≤ num_relays → waiting_at m k g'.topics j ≡ []
    pub before : (j : ℕ) → j < n → waiting_at m k g'.topics j ≡ waiting_at m k g.topics j
    pub more : length g'.sink.samples ≡ length g.sink.samples + count
    pub few : length g'.sink.samples < 1000
    pub counted : g'.msgid ≡ g.msgid

  pub later-Ended : (g g' : Graph m) → Steps m g g' → Ended m k g' → Ended m k g
  later-Ended g g' path ended = record {
    last = ended.last;
    path = Steps-join m g g' ended.last path ended.path;
    after = ended.after;
    exit = ended.exit;
  }

  module _ (prompt : Prompt m k) where
    drain_topic :
        (n : ℕ) (xs : List Message)
        → n ≤ num_relays
        → (g : Graph m) → waiting_at m k g.topics n ≡ xs
        → Clear m k g n
        → length g.sink.samples < 1000
        → ((g' : Graph m) × Drained n (length xs) g g') ⊎ Ended m k g
    drain_topic n [] within g e clear few = inl (
      g,
      record {
        path = none_yet;
        clear = λ j high low. elim (dec_lt n j) [
          | yes above ↦ clear j above low
          | no below ↦ let here : j ≡ n = omega arith in rw here e
        ];
        before = λ j less. refl;
        more = omega arith;
        few = few;
        counted = refl;
      },
    )
    drain_topic n (x ∷ xs) within g e clear few =
        let h : n + (num_relays - n) ≡ num_relays = omega arith in
        elim (carry m k prompt (num_relays - n) n h g x xs e clear few) [
          | inr ended ↦ inr ended
          | inl (g1, c) ↦ elim (drain_topic n xs within g1 c.left c.clear c.few) [
            | inr ended ↦ inr (later-Ended g g1 c.path ended)
            | inl (g', d) ↦ inl (
              g',
              record {
                path = Steps-join m g g1 g' c.path d.path;
                clear = d.clear;
                before = λ j less. d.before j less ∙ c.before j less;
                more = omega (arith, d.more, c.more);
                few = d.few;
                counted = d.counted ∙ c.counted;
              },
            )
          ]
        ]

    drain_all :
        (n : ℕ) (g : Graph m)
        → n ≤ suc num_relays
        → ((j : ℕ) → n ≤ j → j ≤ num_relays → waiting_at m k g.topics j ≡ [])
        → length g.sink.samples < 1000
        → ((g' : Graph m) × Drained 0 (length (row n (waiting_at m k g.topics))) g g') ⊎ Ended m k g
    drain_all zero g within clear few = inl (
      g,
      record {
        path = none_yet;
        clear = clear;
        before = λ j less. refl;
        more = omega arith;
        few = few;
        counted = refl;
      },
    )
    drain_all (suc n) g within clear few =
        elim (drain_topic n (waiting_at m k g.topics n) (omega arith) g refl
          (λ j high low. clear j (omega arith) low) few) [
            | inr ended ↦ inr ended
            | inl (g1, c) ↦ elim (drain_all n g1 (omega arith) c.clear c.few) [
              | inr ended ↦ inr (later-Ended g g1 c.path ended)
              | inl (g', d) ↦
                  let rest =
                    row-same (waiting_at m k g1.topics) (waiting_at m k g.topics) n c.before in
                  let more = rw rest at d.more in
                  inl (
                    g',
                    record {
                      path = Steps-join m g g1 g' c.path d.path;
                      clear = d.clear;
                      before = λ j less. absurd (omega (arith, less));
                      more = omega (
                        arith,
                        more,
                        c.more,
                        length-append (waiting_at m k g.topics n) (row n (waiting_at m k g.topics)),
                      );
                      few = d.few;
                      counted = d.counted ∙ c.counted;
                    },
                  )
            ]
          ]

    -- If topics hand their messages out in the order of their publication and none is late, then
    -- from every state with fewer than 1000 samples in the sink there are turns after which no
    -- message is under way and the sink has one sample more for each message that was, or turns
    -- after which the sink ends the process. The source publishes nothing
    -- meanwhile, and no message need be lost on the way.
    pub line-drains :
        (g : Graph m)
        → length g.sink.samples < 1000
        → ((g' : Graph m) × Steps m g g'
            × ((line_of m k g').under_way ≡ [])
            × (length g'.sink.samples ≡ length g.sink.samples + length (line_of m k g).under_way)
            × (g'.msgid ≡ g.msgid))
          ⊎ Ended m k g
    line-drains g few =
        elim (drain_all (suc num_relays) g (omega arith) (λ j high low. absurd (omega arith)) few) [
          | inr ended ↦ inr ended
          | inl (g', d) ↦
              let e =
                row-same (waiting_at m k g'.topics) (λ j. []) (suc num_relays)
                  (λ j h. d.clear j (omega arith) (omega arith)) in
              inl (g', d.path, rw e refl, d.more, d.counted)
        ]
