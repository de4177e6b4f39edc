-- ===== src/TopicBench/Invariant.antt =====
-- The turns of pnode/src/pub.cpp and what can be under way.
use ros2_pubsub_benchmark.Prelude.{
  ℕ, suc, ◌+◌, ◌^◌, ◌≤◌, ◌<◌, ◌≡◌, refl, inl, inr, some, length, leb, ltb, le→leb, lt→leb, leb→le,
  Bool-cases, Option-cases, true, false, arith,
}
use ros2_pubsub_benchmark.Prelude.Int.{ℤ, pos}
use ros2_pubsub_benchmark.Effect.{done, exited}
use ros2_pubsub_benchmark.ThriftBench.Sink.{SinkHandler, num_relays, nanosec_per_hop}
use ros2_pubsub_benchmark.ThriftBench.Sink.Laws.{Finished, finish-Finished}
use ros2_pubsub_benchmark.TopicBench.{Message, Topics, TopicsLaws}
use ros2_pubsub_benchmark.TopicBench.Nodes.{
  Graph, source_publish, source_message, relay_listen, relay_turn, record_sample, sink_listen,
  sink_turn, topic_name, in_graph,
}
use ros2_pubsub_benchmark.TopicBench.Steps.{
  Step, tick, published, relayed, received, Reaches, started, after,
}
use ros2_pubsub_benchmark.TopicBench.Genuine.{
  Genuine, Genuine-later, sample-Plausible, All-Plausible_later, WellFormed, new_graph-WellFormed,
}

pub sink_listen-returned :
    (nanosec : ℤ) (x : Message) (h : SinkHandler)
    → suc (length h.samples) < 1000
    → sink_listen nanosec x h ≡ done tt (record_sample (nanosec_per_hop nanosec x.nanosec) h)
unfolding sink_listen record_sample
sink_listen-returned nanosec x h below = rw (lt→leb 1000 (suc (length h.samples)) below) refl

-- With at least 999 samples in the sink, and fewer than 2 ^ 31 - 1, a message that the sink of the
-- topics' benchmark is handed ends the process. By then its sample is added, and the summary of all
-- samples is printed.
pub sink_listen-exited :
    (nanosec : ℤ) (x : Message) (h : SinkHandler)
    → 1000 ≤ suc (length h.samples)
    → suc (length h.samples) < 2 ^ 31
    → (h' : SinkHandler) × (sink_listen nanosec x h ≡ exited h')
      × Finished (record_sample (nanosec_per_hop nanosec x.nanosec) h) h'
unfolding sink_listen record_sample
sink_listen-exited nanosec x h full small =
    let (h', e, f) =
      finish-Finished {A = Unit {0}} (record_sample (nanosec_per_hop nanosec x.nanosec) h)
        (omega arith) small in
    (h', rw (le→leb 1000 (suc (length h.samples)) full) e, f)

module _ (m : Topics) (l : TopicsLaws m) where
  tick-WellFormed :
      (g : Graph m) (later : ℕ)
      → g.clock ≤ later
      → later < 2 ^ 63
      → WellFormed m l g
      → WellFormed m l (record g { clock = later })
  tick-WellFormed g later on fits w = record {
    genuine = λ topic x h. Genuine-later (omega arith) on (w.genuine topic x h);
    plausible = All-Plausible_later g.sink.samples on w.plausible;
    unfinished = w.unfinished;
    readable = fits;
  }

  source_message-Genuine :
      (count now : ℕ) → Genuine (suc count) now (source_message (suc count) (pos now))
  unfolding source_message
  source_message-Genuine count now = record {
    number = suc count;
    time = now;
    numbered = refl;
    positive = omega arith;
    given_out = omega arith;
    stamped = refl;
    passed = omega arith;
    named = refl;
  }

  source_publish-WellFormed :
      (g g' : Graph m) → source_publish m g ≡ done tt g' → WellFormed m l g → WellFormed m l g'
  unfolding source_publish
  source_publish-WellFormed g g' e w = elim (Bool-cases (ltb (suc g.msgid) (2 ^ 63))) [
    | inl room ↦ rw (← landed room) (record {
      genuine = λ topic x h.
          elim (l.publish_holds (topic_name 0) topic (source_message (suc g.msgid) (pos g.clock)) x
            g.topics h) [
              | inl before ↦ Genuine-later (omega arith) (omega arith) (w.genuine topic x before)
              | inr new ↦ rw new.1 (source_message-Genuine g.msgid g.clock)
            ];
      plausible = w.plausible;
      unfinished = w.unfinished;
      readable = w.readable;
    })
    | inr full ↦ absurd (nowhere full)
  ]
    where
      landed :
          ltb (suc g.msgid) (2 ^ 63) ≡ true
          → record g {
            msgid = suc g.msgid;
            topics = m.publish (topic_name 0) (source_message (suc g.msgid) (pos g.clock)) g.topics;
          }
            ≡ g'
      landed room = let h = rw room at e in cc (h)

      nowhere : ltb (suc g.msgid) (2 ^ 63) ≡ false → ⊥
      nowhere full = let h = rw full at e in cc (h)

  relay_turn-WellFormed :
      (g g' : Graph m) (index : ℕ)
      → relay_turn m index g ≡ done tt g'
      → WellFormed m l g
      → WellFormed m l g'
  unfolding relay_turn relay_listen
  relay_turn-WellFormed g g' index e w = elim (Option-cases (m.take (topic_name index) g.topics)) [
    | inl idle ↦ let h = rw (idle, relay_turn) at e in let same : g ≡ g' = cc (h) in rw (← same) w
    | inr ((x, rest), taken) ↦
        let h = rw (taken, relay_turn) at e in
        let same : record g { topics = m.publish (topic_name (index + 1)) x rest } ≡ g' = cc (h) in
        rw (← same) (record {
          genuine = λ topic y k. elim (l.publish_holds (topic_name (index + 1)) topic x y rest k) [
            | inl before ↦
                w.genuine topic y
                  (l.take_keeps (topic_name index) topic x y g.topics rest taken before)
            | inr new ↦ rw new.1 (
                w.genuine (topic_name index) x
                  (l.take_holds (topic_name index) x g.topics rest taken))
          ];
          plausible = w.plausible;
          unfinished = w.unfinished;
          readable = w.readable;
        })
  ]

  -- A turn of the sink that returns, when a message is there.
  handed-WellFormed :
      (g g' : Graph m) (x : Message) (rest : m.State)
      → m.take (topic_name num_relays) g.topics ≡ some (x, rest)
      → in_graph m (record g { topics = rest }) (sink_listen (pos g.clock) x g.sink) ≡ done tt g'
      → WellFormed m l g
      → WellFormed m l g'
  unfolding record_sample
  handed-WellFormed g g' x rest taken e w =
      elim (Bool-cases (leb 1000 (suc (length g.sink.samples)))) [
        | inl full ↦
            let (h', ends, f) =
              sink_listen-exited (pos g.clock) x g.sink (leb→le _ _ full)
                (omega (arith, w.unfinished)) in
            let h = rw ends at e in absurd (cc (h))
        | inr low ↦
            let made =
              w.genuine (topic_name num_relays) x
                (l.take_holds (topic_name num_relays) x g.topics rest taken) in
            let from_message =
              sample-Plausible g.clock made.time x.nanosec w.readable made.stamped made.passed in
            let below : suc (length g.sink.samples) < 1000 = ground arith in
            let h = rw (sink_listen-returned (pos g.clock) x g.sink below) at e in
            let same : record g {
              topics = rest;
              sink = record_sample (nanosec_per_hop (pos g.clock) x.nanosec) g.sink;
            }
                ≡ g' =
              cc (h) in
            rw (← same) (record {
              genuine = λ topic y k.
                  w.genuine topic y
                    (l.take_keeps (topic_name num_relays) topic x y g.topics rest taken k);
              plausible = (from_message, w.plausible);
              unfinished = below;
              readable = w.readable;
            })
      ]

  sink_turn-WellFormed :
      (g g' : Graph m) → sink_turn m g ≡ done tt g' → WellFormed m l g → WellFormed m l g'
  unfolding sink_turn
  sink_turn-WellFormed g g' e w = elim (Option-cases (m.take (topic_name num_relays) g.topics)) [
    | inl idle ↦ let h = rw (idle, sink_turn) at e in let same : g ≡ g' = cc (h) in rw (← same) w
    | inr ((x, rest), taken) ↦ handed-WellFormed g g' x rest taken (rw (taken, sink_turn) at e) w
  ]

  Step-WellFormed : (g g' : Graph m) → Step m g g' → WellFormed m l g → WellFormed m l g'
  Step-WellFormed _ _ (tick g later on fits) w = tick-WellFormed g later on fits w
  Step-WellFormed _ _ (published g g' e) w = source_publish-WellFormed g g' e w
  Step-WellFormed _ _ (relayed g g' index within e) w = relay_turn-WellFormed g g' index e w
  Step-WellFormed _ _ (received g g' e) w = sink_turn-WellFormed g g' e w

  -- If a subscription is handed only what has been published on its topic, then whatever the order
  -- of the turns of the source, the relays and the sink, and however the clock goes on: each
  -- message on a topic has a number that the source has given out, a time stamp that has passed,
  -- and the name of the source, which no relay has put its own name over; each sample is a latency
  -- that is not negative and fits into the time since the clock's start; and the sink has fewer
  -- than 1000 samples as long as the process goes on.
  pub Reaches-WellFormed : (g : Graph m) → Reaches m g → WellFormed m l g
  Reaches-WellFormed _ started = new_graph-WellFormed m l
  Reaches-WellFormed _ (after g0 g r s) = Step-WellFormed g0 g s (Reaches-WellFormed g0 r)
