-- ===== src/TopicBench/Line/Refinement.antt =====
-- The turns of the nodes, as steps of the line.
use ros2_pubsub_benchmark.Prelude.{
  ℕ, suc, ◌+◌, ◌^◌, ◌≤◌, ◌<◌, ◌≡◌, ◌≢◌, refl, ap, sym, ◌∙◌, inl, inr, List, [], ◌∷◌, ◌++◌, length,
  ltb, Bool-cases, Option-cases, some, arith,
}
use native.Mathlib.Decide.{dec_lt}
use ros2_pubsub_benchmark.Prelude.Int.{pos}
use ros2_pubsub_benchmark.Prelude.Bytes.{Bytes}
use ros2_pubsub_benchmark.Prelude.Digits.{to_string-inj}
use ros2_pubsub_benchmark.Effect.{onto, Ending, done, threw, exited, undefined, spinning}
use ros2_pubsub_benchmark.ThriftBench.Sink.{SinkHandler, num_relays}
use ros2_pubsub_benchmark.TopicBench.{Message, Topics}
use ros2_pubsub_benchmark.TopicBench.Nodes.{
  Graph, new_graph, topic_name, source_message, source_publish, relay_listen, relay_turn,
  sink_listen, sink_turn, in_graph,
}
use ros2_pubsub_benchmark.TopicBench.Steps.{
  Step, tick, published, relayed, received, Reaches, started, after,
}
use ros2_pubsub_benchmark.TopicBench.Line.{
  new_line, history_depth, FifoLaws, line_receive, in_line, LineStep, LineReaches, row, waiting_at,
  line_of,
}
use ros2_pubsub_benchmark.TopicBench.Line.Moves.{Appended, room, full, line_shift, line_put}
use ros2_pubsub_benchmark.TopicBench.Line.Rows.{row-same, row-first, row-pair}

topic_name-inj : (i j : ℕ) → topic_name i ≡ topic_name j → i ≡ j
unfolding topic_name
topic_name-inj i j e = to_string-inj i j (cc (e))

topic_name-neq : (i j : ℕ) → i ≢ j → topic_name i ≢ topic_name j
topic_name-neq i j differ e = differ (topic_name-inj i j e)

module _ (m : Topics) (k : FifoLaws m) where
  in_line-in_graph :
      (g : Graph m) (e : Ending SinkHandler (Unit {0}))
      → in_line (line_of m k g) e ≡ onto (line_of m k) (in_graph m g e)
  in_line-in_graph g (done a h) = refl
  in_line-in_graph g (threw x h) = refl
  in_line-in_graph g (exited h) = refl
  in_line-in_graph g (undefined h) = refl
  in_line-in_graph g (spinning h) = refl

  -- Taking from one topic leaves the others, and so does publishing.
  pub take-others :
      (i j : ℕ) (x : Message) (s s' : m.State)
      → m.take (topic_name i) s ≡ some (x, s')
      → j ≢ i
      → waiting_at m k s j ≡ waiting_at m k s' j
  take-others i j x s s' e differ =
      sym (k.take_others (topic_name i) (topic_name j) x s s' e (topic_name-neq j i differ))

  pub publish-others :
      (i j : ℕ) (x : Message) (s : m.State)
      → j ≢ i
      → waiting_at m k s j ≡ waiting_at m k (m.publish (topic_name i) x s) j
  publish-others i j x s differ =
      sym (k.publish_others (topic_name i) (topic_name j) x s (topic_name-neq j i differ))

  sink_turn-line :
      (g : Graph m) (x : Message) (rest : m.State)
      → m.take (topic_name num_relays) g.topics ≡ some (x, rest)
      → line_receive (line_of m k g) ≡ onto (line_of m k) (sink_turn m g)
  unfolding line_receive sink_turn
  sink_turn-line g x rest taken =
      let front = k.take_waiting (topic_name num_relays) x g.topics rest taken in
      let others =
        row-same (waiting_at m k g.topics) (waiting_at m k rest) num_relays (λ j h.
          take-others num_relays j x g.topics rest taken (λ z. absurd (omega (arith, z)))) in
      let e : row (suc num_relays) (waiting_at m k g.topics)
          ≡ x ∷ row (suc num_relays) (waiting_at m k rest) =
        rw (front, others) refl in
      rw (taken, sink_turn, e, line_receive)
        (in_line-in_graph (record g { topics = rest }) (sink_listen (pos g.clock) x g.sink))

  appended :
      (topic : Bytes) (x : Message) (s : m.State) (before : List Message)
      → k.waiting topic s ≡ before
      → Appended before (k.waiting topic (m.publish topic x s)) x
  appended topic x s before e = elim (dec_lt (length before) history_depth) [
    | yes below ↦ room (rw (← e) (k.publish_room topic x s (rw e below)))
    | no above ↦ oldest before e (omega arith)
  ]
    where
      oldest :
          (ms : List Message)
          → k.waiting topic s ≡ ms
          → history_depth ≤ length ms
          → Appended ms (k.waiting topic (m.publish topic x s)) x
      oldest [] h many = absurd (omega arith)
      oldest (y ∷ ys) h many = full y ys refl many (k.publish_full topic x y ys s h many)

  source_publish-line :
      (g g' : Graph m)
      → source_publish m g ≡ done tt g'
      → LineReaches (line_of m k g)
      → LineReaches (line_of m k g')
  unfolding source_publish
  source_publish-line g g' e r = elim (Bool-cases (ltb (suc g.msgid) (2 ^ 63))) [
    | inr past ↦ absurd (let h = rw past at e in cc (h))
    | inl fits ↦
        let x = source_message (suc g.msgid) (pos g.clock) in
        let s = m.publish (topic_name 0) x g.topics in
        let h = rw fits at e in
        let same : record g { msgid = suc g.msgid; topics = s } ≡ g' = cc (h) in
        let (before, shape, shape') =
          row-first (waiting_at m k g.topics) (waiting_at m k s) num_relays
            (λ j differ. publish-others 0 j x g.topics differ) in
        let put =
          line_put (line_of m k g) before (waiting_at m k g.topics 0) (waiting_at m k s 0) fits
            shape (appended (topic_name 0) x g.topics _ refl) r in
        rw (← same) (rw (← shape') at put)
  ]

  relay_turn-line :
      (g g' : Graph m) (index : ℕ)
      → index < num_relays
      → relay_turn m index g ≡ done tt g'
      → LineReaches (line_of m k g)
      → LineReaches (line_of m k g')
  unfolding relay_turn relay_listen
  relay_turn-line g g' index within e r = elim (Option-cases (m.take (topic_name index) g.topics)) [
    | inl idle ↦ let h = rw (idle, relay_turn) at e in let same : g ≡ g' = cc (h) in rw (← same) r
    | inr ((x, rest), taken) ↦
        let h = rw (taken, relay_turn) at e in
        let s = m.publish (topic_name (index + 1)) x rest in
        let same : record g { topics = s } ≡ g' = cc (h) in
        let plus : index + 1 ≡ suc index = omega arith in
        rw (← same, plus) (handed g index within x rest taken r)
  ]
    where
      handed :
          (g : Graph m) (index : ℕ)
          → index < num_relays
          → (x : Message) (rest : m.State) → m.take (topic_name index) g.topics ≡ some (x, rest)
          → LineReaches (line_of m k g)
          → LineReaches
              (line_of m k (record g { topics = m.publish (topic_name (suc index)) x rest }))
      handed g index within x rest taken r =
          let s = m.publish (topic_name (suc index)) x rest in
          let front = k.take_waiting (topic_name index) x g.topics rest taken in
          let here : waiting_at m k s index ≡ waiting_at m k rest index =
            sym (publish-others (suc index) index x rest (λ z. absurd (omega (arith, z)))) in
          let next : waiting_at m k g.topics (suc index) ≡ waiting_at m k rest (suc index) =
            take-others index (suc index) x g.topics rest taken (λ z. absurd (omega (arith, z))) in
          let (before, behind, shape, shape') =
            row-pair (waiting_at m k g.topics) (waiting_at m k s) (suc num_relays) index
              (omega arith)
              (λ j d d'.
                take-others index j x g.topics rest taken d
                ∙ publish-others (suc index) j x rest d') in
          rw shape' (
            line_shift (line_of m k g) before (waiting_at m k g.topics (suc index))
              (waiting_at m k s (suc index)) (waiting_at m k s index ++ behind) x
              (rw (shape, front, here) refl)
              (rw next (appended (topic_name (suc index)) x rest _ refl)) r)

  sink_turn-refines :
      (g g' : Graph m)
      → sink_turn m g ≡ done tt g'
      → LineReaches (line_of m k g)
      → LineReaches (line_of m k g')
  unfolding sink_turn
  sink_turn-refines g g' e r = elim (Option-cases (m.take (topic_name num_relays) g.topics)) [
    | inl idle ↦ let h = rw (idle, sink_turn) at e in let same : g ≡ g' = cc (h) in rw (← same) r
    | inr ((x, rest), taken) ↦
        LineReaches.after _ _ r
          (LineStep.received _ _ (sink_turn-line g x rest taken ∙ ap (onto (line_of m k)) e))
  ]

  new_graph-line : line_of m k (new_graph m) ≡ new_line
  new_graph-line =
      let e =
        row-same (waiting_at m k m.start) (λ j. []) (suc num_relays)
          (λ j h. k.start_waiting (topic_name j)) in
      rw e refl

  Step-refines :
      (g g' : Graph m) → Step m g g' → LineReaches (line_of m k g) → LineReaches (line_of m k g')
  Step-refines _ _ (tick g later on fits) r =
      LineReaches.after _ _ r (LineStep.tick (line_of m k g) later on fits)
  Step-refines _ _ (published g g' e) r = source_publish-line g g' e r
  Step-refines _ _ (relayed g g' index within e) r = relay_turn-line g g' index within e r
  Step-refines _ _ (received g g' e) r = sink_turn-refines g g' e r

  Reaches-LineReaches : (g : Graph m) → Reaches m g → LineReaches (line_of m k g)
  Reaches-LineReaches _ started = rw new_graph-line LineReaches.started
  Reaches-LineReaches _ (after g0 g r s) = Step-refines g0 g s (Reaches-LineReaches g0 r)

  -- If topics hand their messages out in the order of their publication, and drop the oldest only
  -- when ten wait, then every state that the nodes of the topics' benchmark can reach is one that a
  -- single line between the source and the sink can reach: the rows of the 21 topics, one behind
  -- the other, are the line, and it loses a message only while at least ten are under way. When the
  -- sink is handed a message, its turn ends just as the line's front is received.
  pub Reaches-refines :
      (g : Graph m)
      → Reaches m g
      → LineReaches (line_of m k g)
        × ((x : Message) (rest : m.State)
            → m.take (topic_name num_relays) g.topics ≡ some (x, rest)
            → line_receive (line_of m k g) ≡ onto (line_of m k) (sink_turn m g))
  Reaches-refines g r = (Reaches-LineReaches g r, sink_turn-line g)
