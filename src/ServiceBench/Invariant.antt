-- ===== src/ServiceBench/Invariant.antt =====
-- The turns of psrv/src/srv.cpp and what can be under way.
use ros2_pubsub_benchmark.Prelude.{
  ℕ, suc, ◌+◌, ◌^◌, ◌≤◌, ◌<◌, ◌≡◌, refl, inl, inr, some, Option, length, leb, ltb, le→leb, lt→leb,
  leb→le, Bool-cases, Option-cases, arith,
}
use ros2_pubsub_benchmark.Prelude.Int.{ℤ, pos}
use ros2_pubsub_benchmark.Effect.{done, exited}
use ros2_pubsub_benchmark.ThriftBench.Sink.{SinkHandler, num_relays, nanosec_per_hop, insert_sample}
use ros2_pubsub_benchmark.ThriftBench.Sink.Laws.{Finished, finish-Finished}
use ros2_pubsub_benchmark.TopicBench.{Message, Topics, TopicsLaws}
use ros2_pubsub_benchmark.TopicBench.Genuine.{All-Plausible_later, sample-Plausible}
use ros2_pubsub_benchmark.ServiceBench.Nodes.{
  Process, service_name, thread_request, relay_copy_request, sink_service, client_round,
  service_turn, in_process, sink_service_turn,
}
use ros2_pubsub_benchmark.ServiceBench.Steps.{
  Turn, tick, requested, relayed, received, Reachable, started, after,
}
use ros2_pubsub_benchmark.ServiceBench.Labelled.{
  stamp-Labelled, relay_copy_request-Labelled, Labelled-later, Sound, new_process-Sound,
}

pub sink_service-returned :
    (nanosec : ℤ) (x : Message) (h : SinkHandler)
    → suc (length h.samples) < 1000
    → sink_service nanosec x h ≡ done x.msgid (insert_sample (nanosec_per_hop nanosec x.nanosec) h)
unfolding sink_service insert_sample
sink_service-returned nanosec x h below = rw (lt→leb 1000 (suc (length h.samples)) below) refl

-- With at least 999 samples in the sink, and fewer than 2 ^ 31 - 1, a request that the sink service
-- is handed ends the process. By then its sample is added, and its line and then the summary of all
-- samples are printed.
pub sink_service-exited :
    (nanosec : ℤ) (x : Message) (h : SinkHandler)
    → 1000 ≤ suc (length h.samples)
    → suc (length h.samples) < 2 ^ 31
    → (h' : SinkHandler) × (sink_service nanosec x h ≡ exited h')
      × Finished (insert_sample (nanosec_per_hop nanosec x.nanosec) h) h'
unfolding sink_service insert_sample
sink_service-exited nanosec x h full small =
    let (h', e, f) =
      finish-Finished {A = ℤ} (insert_sample (nanosec_per_hop nanosec x.nanosec) h) (omega arith)
        small in
    (h', rw (le→leb 1000 (suc (length h.samples)) full) e, f)

module _ (m : Topics) (l : TopicsLaws m) where
  tick-Sound :
      (g : Process m) (later : ℕ)
      → g.clock ≤ later
      → later < 2 ^ 63
      → Sound m l g
      → Sound m l (record g { clock = later })
  tick-Sound g later on fits w = record {
    labelled = λ name x h. Labelled-later (omega arith) on (w.labelled name x h);
    plausible = All-Plausible_later g.sink.samples on w.plausible;
    unfinished = w.unfinished;
    readable = fits;
    bounded = w.bounded;
  }

  client_round-Sound :
      (g g' : Process m) → client_round m g ≡ done tt g' → Sound m l g → Sound m l g'
  unfolding client_round
  client_round-Sound g g' e w = elim (Bool-cases (ltb g.round 1000)) [
    | inl room ↦
        let h = rw room at e in
        let below : g.round < 1000 = ground arith in
        let same : record g {
          round = suc g.round;
          requests = m.publish (service_name 0) (thread_request g.round (pos g.clock)) g.requests;
        }
            ≡ g' =
          cc (h) in
        rw (← same) (record {
          labelled = λ name x k.
              elim (l.publish_holds (service_name 0) name (thread_request g.round (pos g.clock)) x
                g.requests k) [
                  | inl before ↦
                      Labelled-later (omega arith) (omega arith) (w.labelled name x before)
                  | inr new ↦ record {
                    round = g.round;
                    time = g.clock;
                    made = omega arith;
                    passed = omega arith;
                    labelled = inl new;
                  }
                ];
          plausible = w.plausible;
          unfinished = w.unfinished;
          readable = w.readable;
          bounded = below;
        })
    | inr over ↦ let h = rw over at e in let same : g ≡ g' = cc (h) in rw (← same) w
  ]

  service_turn-Sound :
      (g g' : Process m) (i : ℕ) (ack : Option ℤ)
      → service_turn m i g ≡ done ack g'
      → Sound m l g
      → Sound m l g'
  unfolding service_turn
  service_turn-Sound g g' i ack e w = elim (Option-cases (m.take (service_name i) g.requests)) [
    | inl idle ↦ let h = rw (idle, service_turn) at e in let same : g ≡ g' = cc (h) in rw (← same) w
    | inr ((x, rest), taken) ↦
        let h = rw (taken, service_turn) at e in
        let same : record g {
          requests = m.publish (service_name (i + 1)) (relay_copy_request i x) rest;
        }
            ≡ g' =
          cc (h) in
        rw (← same) (record {
          labelled = λ name y k.
              elim (l.publish_holds (service_name (i + 1)) name (relay_copy_request i x) y rest k) [
                | inl before ↦
                    w.labelled name y
                      (l.take_keeps (service_name i) name x y g.requests rest taken before)
                | inr new ↦
                    rw (new.0, new.1)
                      (relay_copy_request-Labelled i (
                        w.labelled (service_name i) x
                          (l.take_holds (service_name i) x g.requests rest taken)))
              ];
          plausible = w.plausible;
          unfinished = w.unfinished;
          readable = w.readable;
          bounded = w.bounded;
        })
  ]

  -- A turn of the sink service that returns, when a request is there.
  handed-Sound :
      (g g' : Process m) (ack : Option ℤ) (x : Message) (rest : m.State)
      → m.take (service_name num_relays) g.requests ≡ some (x, rest)
      → in_process m (record g { requests = rest }) (sink_service (pos g.clock) x g.sink)
        ≡ done ack g'
      → Sound m l g
      → Sound m l g'
  unfolding insert_sample
  handed-Sound g g' ack x rest taken e w =
      elim (Bool-cases (leb 1000 (suc (length g.sink.samples)))) [
        | inl full ↦
            let (h', ends, f) =
              sink_service-exited (pos g.clock) x g.sink (leb→le _ _ full)
                (omega (arith, w.unfinished)) in
            let h = rw ends at e in absurd (cc (h))
        | inr low ↦
            let below : suc (length g.sink.samples) < 1000 = ground arith in
            let made =
              w.labelled (service_name num_relays) x
                (l.take_holds (service_name num_relays) x g.requests rest taken) in
            let from_request =
              sample-Plausible g.clock made.time x.nanosec w.readable (stamp-Labelled made)
                made.passed in
            let h = rw (sink_service-returned (pos g.clock) x g.sink below) at e in
            let same : record g {
              requests = rest;
              sink = insert_sample (nanosec_per_hop (pos g.clock) x.nanosec) g.sink;
            }
                ≡ g' =
              cc (h) in
            rw (← same) (record {
              labelled = λ name y k.
                  w.labelled name y
                    (l.take_keeps (service_name num_relays) name x y g.requests rest taken k);
              plausible = (from_request, w.plausible);
              unfinished = below;
              readable = w.readable;
              bounded = w.bounded;
            })
      ]

  sink_service_turn-Sound :
      (g g' : Process m) (ack : Option ℤ)
      → sink_service_turn m g ≡ done ack g'
      → Sound m l g
      → Sound m l g'
  unfolding sink_service_turn
  sink_service_turn-Sound g g' ack e w =
      elim (Option-cases (m.take (service_name num_relays) g.requests)) [
        | inl idle ↦
            let h = rw (idle, sink_service_turn) at e in let same : g ≡ g' = cc (h) in rw (← same) w
        | inr ((x, rest), taken) ↦
            handed-Sound g g' ack x rest taken (rw (taken, sink_service_turn) at e) w
      ]

  Turn-Sound : (g g' : Process m) → Turn m g g' → Sound m l g → Sound m l g'
  Turn-Sound _ _ (tick g later on fits) w = tick-Sound g later on fits w
  Turn-Sound _ _ (requested g g' e) w = client_round-Sound g g' e w
  Turn-Sound _ _ (relayed g g' i ack within e) w = service_turn-Sound g g' i ack e w
  Turn-Sound _ _ (received g g' ack e) w = sink_service_turn-Sound g g' ack e w

  -- If a service is handed only what has been sent to it, then whatever the order of the turns of
  -- the client thread, the relay services and the sink service, and however the clock goes on: each
  -- request under way is, under the first service's name, one that the client thread made in a
  -- round that has been, at a time that has passed, or, under a later service's name, what the
  -- relay service before it makes of such a one, with its own label; each sample is a latency that
  -- is not negative and fits into the time since the clock's start; the sink has fewer than 1000
  -- samples as long as the process goes on, and the client makes at most 1000 rounds.
  pub Reachable-Sound : (g : Process m) → Reachable m g → Sound m l g
  Reachable-Sound _ started = new_process-Sound m l
  Reachable-Sound _ (after g0 g r s) = Turn-Sound g0 g s (Reachable-Sound g0 r)
