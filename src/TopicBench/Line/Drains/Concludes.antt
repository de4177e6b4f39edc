-- ===== src/TopicBench/Line/Drains/Concludes.antt =====
-- Turns that bring the benchmark of pnode/src/pub.cpp to its end.
use ros2_pubsub_benchmark.Prelude.{
  ℕ, zero, suc, ◌+◌, ◌^◌, ◌≤◌, ◌<◌, ◌≡◌, refl, ap, subst, ◌⊎◌, inl, inr, List, [], ◌∷◌, length,
  length-append, ltb, true, List-cases, arith,
}
use native.Mathlib.Decide.{dec_lt}
use ros2_pubsub_benchmark.Prelude.Int.{pos}
use ros2_pubsub_benchmark.Prelude.Bytes.{Bytes}
use ros2_pubsub_benchmark.Effect.{exited}
use ros2_pubsub_benchmark.ThriftBench.Sink.{SinkHandler, num_relays}
use ros2_pubsub_benchmark.TopicBench.{Message, Topics, TopicsLaws}
use ros2_pubsub_benchmark.TopicBench.Nodes.{
  Graph, topic_name, source_message, source_publish, sink_turn,
}
use ros2_pubsub_benchmark.TopicBench.Steps.{published, Reaches, after}
use ros2_pubsub_benchmark.TopicBench.Invariant.{Reaches-WellFormed}
use ros2_pubsub_benchmark.TopicBench.Endings.{Concluded, sink_turn-ends}
use ros2_pubsub_benchmark.TopicBench.Waiting.{Among, Among-append, waiting_laws}
use ros2_pubsub_benchmark.TopicBench.Line.{history_depth, FifoLaws, waiting_at, line_of}
use ros2_pubsub_benchmark.TopicBench.Line.Rows.{row-first}
use ros2_pubsub_benchmark.TopicBench.Line.Drains.{Prompt, Steps, none_yet, then, Ended}
use ros2_pubsub_benchmark.TopicBench.Line.Drains.Emptied.{line-drains, later-Ended}

module _ (m : Topics) (k : FifoLaws m) where
  -- A topic that is full keeps the messages behind its oldest one, and the new one.
  publish-Among :
      (topic : Bytes) (x y : Message) (s : m.State)
      → Among y (k.waiting topic (m.publish topic x s))
      → Among y (k.waiting topic s) ⊎ (y ≡ x)
  publish-Among topic x y s h = elim (dec_lt (length (k.waiting topic s)) history_depth) [
    | yes room ↦
        Among-append y x (k.waiting topic s) (subst (Among y) (k.publish_room topic x s room) h)
    | no full ↦ elim (List-cases (k.waiting topic s)) [
      | inl nothing ↦ absurd (omega (arith, full, ap (λ (xs : List Message). length xs) nothing))
      | inr (z, zs, e) ↦
          let many : history_depth ≤ length (z ∷ zs) =
            omega (arith, full, ap (λ (xs : List Message). length xs) e) in
          elim (Among-append y x zs (subst (Among y) (k.publish_full topic x z zs s e many) h)) [
            | inl old ↦ inl (rw e (inr old))
            | inr new ↦ inr new
          ]
    ]
  ]

  pub held_laws : TopicsLaws m
  held_laws =
      waiting_laws m k.waiting publish-Among k.publish_others k.take_waiting k.take_others
        k.start_waiting

  -- A message that has just been published waits.
  published_waits :
      (topic : Bytes) (x : Message) (s : m.State)
      → 0 < length (k.waiting topic (m.publish topic x s))
  published_waits topic x s = elim (dec_lt (length (k.waiting topic s)) history_depth) [
    | yes room ↦
        rw (k.publish_room topic x s room)
          (omega (arith, length-append (k.waiting topic s) (x ∷ [])))
    | no full ↦ elim (List-cases (k.waiting topic s)) [
      | inl nothing ↦ absurd (omega (arith, full, ap (λ (xs : List Message). length xs) nothing))
      | inr (z, zs, e) ↦
          let many : history_depth ≤ length (z ∷ zs) =
            omega (arith, full, ap (λ (xs : List Message). length xs) e) in
          rw (k.publish_full topic x z zs s e many) (omega (arith, length-append zs (x ∷ [])))
    ]
  ]

  Steps-Reaches : (g g' : Graph m) → Reaches m g → Steps m g g' → Reaches m g'
  Steps-Reaches g _ r none_yet = r
  Steps-Reaches g _ r (then h h' p s) = after h h' (Steps-Reaches g h r p) s

  -- The source's turn, with something on the way to the sink afterwards.
  source_step :
      (g : Graph m)
      → suc g.msgid < 2 ^ 63
      → (g' : Graph m) × Steps m g g'
        × (g'.sink ≡ g.sink)
        × (g'.msgid ≡ suc g.msgid)
        × (0 < length (line_of m k g').under_way)
  unfolding source_publish
  source_step g fits =
      let x = source_message (suc g.msgid) (pos g.clock) in
      let s = m.publish (topic_name 0) x g.topics in
      let test : ltb (suc g.msgid) (2 ^ 63) ≡ true = ground arith in
      let g' : Graph m = record g { msgid = suc g.msgid; topics = s } in
      let (before, shape, _) =
        row-first (waiting_at m k s) (waiting_at m k s) num_relays (λ j differ. refl) in
      (
        g',
        then g g' none_yet (published g g' (rw test refl)),
        refl,
        refl,
        rw shape (
            omega (
              arith,
              published_waits (topic_name 0) x g.topics,
              length-append before (waiting_at m k s 0),
            )),
      )

  -- The sink ends the process, with what it has printed.
  pub record Concludes (g : Graph m) : Type 0 where
    pub last : Graph m
    pub path : Steps m g last
    pub next : Graph m
    pub exit : sink_turn m last ≡ exited next
    pub concluded : Concluded last.clock next.sink

  module _ (prompt : Prompt m k) where
    ends :
        (fuel : ℕ) (g : Graph m)
        → Reaches m g
        → 1000 ≤ length g.sink.samples + fuel
        → g.msgid + fuel < 2 ^ 63
        → Ended m k g
    ends zero g r enough fits =
        let sound = Reaches-WellFormed m held_laws g r in
        absurd (omega (arith, enough, sound.unfinished))
    ends (suc fuel) g r enough fits =
        let sound = Reaches-WellFormed m held_laws g r in
        let (g1, path, same, count, under_way) = source_step g (omega arith) in
        let r1 = Steps-Reaches g g1 r path in
        let few : length g1.sink.samples < 1000 = rw same sound.unfinished in
        let size = ap (λ (h : SinkHandler). length h.samples) same in
        elim (line-drains m k prompt g1 few) [
          | inr ended ↦ later-Ended m k g g1 path ended
          | inl (g2, path', empty, more, counted) ↦ later-Ended m k g g1 path (
              later-Ended m k g1 g2 path' (
                ends fuel g2 (Steps-Reaches g1 g2 r1 path')
                  (omega (arith, enough, more, size, under_way))
                  (omega (arith, fits, count, counted))))
        ]

    -- If topics hand their messages out in the order of their publication, drop the oldest only
    -- when ten wait, and have none late, then from every state that the nodes of the topics'
    -- benchmark can reach with fewer than 2 ^ 62 messages published there are turns after which the
    -- sink's turn ends the process, with the summary of exactly 1000 samples printed, each a
    -- latency that is not negative and fits into the time since the clock's start.
    pub Reaches-Concludes : (g : Graph m) → Reaches m g → g.msgid < 2 ^ 62 → Concludes g
    Reaches-Concludes g r fits =
        let ended = ends 1000 g r (omega arith) (omega arith) in
        let r' = Steps-Reaches g ended.last r ended.path in
        elim (sink_turn-ends m held_laws ended.last r') [
          | inl (g', e) ↦ absurd (cc (e, ended.exit))
          | inr (next, e, c) ↦ record {
            last = ended.last;
            path = ended.path;
            next = next;
            exit = e;
            concluded = c;
          }
        ]
