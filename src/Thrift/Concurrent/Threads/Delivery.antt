-- ===== src/Thrift/Concurrent/Threads/Delivery.antt =====
-- What the threads have returned, after any turns.
use ros2_pubsub_benchmark.Prelude.{
  ℕ, ◌+◌, ◌≤◌, ◌<◌, ◌≡◌, refl, ap, ◌∙◌, inl, inr, ◌≢◌, List, [], ◌∷◌, ◌++◌, append_assoc, Bool,
  Bool-cases, true, false, some, none,
}
use ros2_pubsub_benchmark.Prelude.Int.{ℤ}
use ros2_pubsub_benchmark.Effect.{done}
use ros2_pubsub_benchmark.Thrift.Protocol.{Protocol, Laws}
use ros2_pubsub_benchmark.Thrift.Protocol.Wire.{View}
use ros2_pubsub_benchmark.Thrift.Timing.{eq_int64}
use ros2_pubsub_benchmark.Thrift.Timing.Equality.{eq_int64_iff}
use ros2_pubsub_benchmark.Thrift.Concurrent.{Sync, Outcome, answer, Shared, recv_round, settle_recv}
use ros2_pubsub_benchmark.Thrift.Concurrent.Rounds.{
  SyncView, SyncLaws, without, Reply, shared_view, untouched,
}
use ros2_pubsub_benchmark.Thrift.Concurrent.Threads.{
  Threads, Turn, returns, waits, Turns, here, next, Distinct, Expected, Expected-without, Looks,
  fresh, begun, Delivers, round-own, round-other, settled_view,
}

module _ (p : Protocol) (l : Laws p) (y : Sync p) (k : SyncLaws p y) (fuel : ℕ) (enough : 1 < fuel)
    (v : View) (u : SyncView) (fits : v.input_depth + 2 ≤ l.limit) (good : u.stopped ≡ false) where
  nothing_left :
      (s : Shared p y) (callers : ℤ → Bool)
      → Looks p l y k fuel enough v u fits good s callers []
      → (l.view s.0).incoming ≡ []
  nothing_left s callers (fresh _ e) = cc (e)

  waited_view :
      (s s1 : Shared p y) (seqid : ℤ)
      → y.wait_for_work seqid s ≡ done tt s1
      → shared_view p l y k s1 ≡ shared_view p l y k s
  waited_view s s1 seqid e =
      let (wire, sync) = k.wait_for_work_view seqid s s1 e in
      let wire' = ap l.view wire in cc (wire', sync)

  module _ (sent : List Reply) (t : Threads p l y k fuel) where
    returns-Delivers :
        (seqid x : ℤ) (o : Outcome) (s s1 : Shared p y) (rest : List Reply) (callers : ℤ → Bool)
        → Looks p l y k fuel enough v u fits good t.shared callers rest
        → t.received ++ rest ≡ sent
        → Distinct rest
        → Expected callers rest
        → (l.view t.shared.0).incoming ≢ []
        → recv_round p y fuel seqid t.shared ≡ done (some o) s
        → settle_recv p y seqid (done o s) ≡ done x s1
        → Delivers p l y k fuel enough v u fits good sent (record {
          shared = s1;
          received = t.received ++ record { seqid = seqid; value = x } ∷ [];
        })
    returns-Delivers seqid x o s s1 [] callers looks order distinct expected more ran ended =
        absurd (more (nothing_left t.shared callers looks))
    returns-Delivers seqid x o s s1 (r ∷ rs) callers looks order distinct expected more ran ended =
        elim (Bool-cases (eq_int64 seqid r.seqid)) [
          | inl own ↦
              let same : seqid ≡ r.seqid = (eq_int64_iff seqid r.seqid).0 own in
              let (s', ran', e') =
                round-own p l y k fuel enough v u fits good t.shared callers r rs expected.0
                  looks in
              let outcome : o ≡ answer r.value = cc (ran, ran', same) in
              let state : s ≡ s' = cc (ran, ran', same) in
              let ended' = rw outcome at ended in
              let value : x ≡ r.value = cc (ended') in
              let left : (s.0, y.end_recv seqid true s.1) ≡ s1 = cc (ended') in
              record {
                rest = rs;
                callers = without seqid callers;
                looks = fresh rs (
                    rw (← left) (
                      settled_view p l y k fuel enough v u fits good s seqid callers rs
                        (rw state e')));
                in_order = rw (append_assoc, same, value) order;
                distinct = distinct.1;
                expected = Expected-without seqid callers rs (rw same distinct.0) expected.1;
              }
          | inr other ↦
              let (s', ran', e') =
                round-other p l y k fuel enough v u fits good t.shared callers r rs expected.0 seqid
                  other looks in
              absurd (cc (ran, ran'))
        ]

    waits-Delivers :
        (seqid : ℤ) (s s1 : Shared p y) (rest : List Reply) (callers : ℤ → Bool)
        → Looks p l y k fuel enough v u fits good t.shared callers rest
        → t.received ++ rest ≡ sent
        → Distinct rest
        → Expected callers rest
        → (l.view t.shared.0).incoming ≢ []
        → recv_round p y fuel seqid t.shared ≡ done none s
        → y.wait_for_work seqid s ≡ done tt s1
        → Delivers p l y k fuel enough v u fits good sent
            (record { shared = s1; received = t.received })
    waits-Delivers seqid s s1 [] callers looks order distinct expected more ran waited =
        absurd (more (nothing_left t.shared callers looks))
    waits-Delivers seqid s s1 (r ∷ rs) callers looks order distinct expected more ran waited =
        elim (Bool-cases (eq_int64 seqid r.seqid)) [
          | inl own ↦
              let same : seqid ≡ r.seqid = (eq_int64_iff seqid r.seqid).0 own in
              let (s', ran', e') =
                round-own p l y k fuel enough v u fits good t.shared callers r rs expected.0
                  looks in
              absurd (cc (ran, ran', same))
          | inr other ↦
              let (s', ran', e') =
                round-other p l y k fuel enough v u fits good t.shared callers r rs expected.0 seqid
                  other looks in
              let state : s ≡ s' = cc (ran, ran') in
              record {
                rest = r ∷ rs;
                callers = callers;
                looks =
                    begun r rs
                      (waited_view s s1 seqid waited ∙ ap (shared_view p l y k) state ∙ e');
                in_order = order;
                distinct = distinct;
                expected = expected;
              }
        ]

  Turn-Delivers :
      (sent : List Reply) (t t' : Threads p l y k fuel)
      → Turn p l y k fuel t t'
      → Delivers p l y k fuel enough v u fits good sent t
      → Delivers p l y k fuel enough v u fits good sent t'
  Turn-Delivers sent t _ (returns seqid x o s s' waited more ran ended) d =
      returns-Delivers sent t seqid x o s s' d.rest d.callers d.looks d.in_order d.distinct
        d.expected more ran ended
  Turn-Delivers sent t _ (waits seqid s s' waited more ran left) d =
      waits-Delivers sent t seqid s s' d.rest d.callers d.looks d.in_order d.distinct d.expected
        more ran left

  Turns-Delivers :
      (sent : List Reply) (t t' : Threads p l y k fuel)
      → Delivers p l y k fuel enough v u fits good sent t
      → Turns p l y k fuel t t'
      → Delivers p l y k fuel enough v u fits good sent t'
  Turns-Delivers sent t _ d here = d
  Turns-Delivers sent t _ d (next {t'} {t''} r s) =
      Turn-Delivers sent t' t'' s (Turns-Delivers sent t t' d r)

  module _ (sent : List Reply) (start : Threads p l y k fuel)
      (looks : shared_view p l y k start.shared ≡ untouched p l y k v u sent)
      (none_yet : start.received ≡ []) (distinct : Distinct sent)
      (expected : Expected u.callers sent) where
    started : Delivers p l y k fuel enough v u fits good sent start
    started = record {
      rest = sent;
      callers = u.callers;
      looks = fresh sent looks;
      in_order = rw none_yet refl;
      distinct = distinct;
      expected = expected;
    }

    -- Threads wait for the answers to their calls on one connection, and the replies come in any
    -- order, no two with one sequence number, each for a thread that waits; fuel and nesting
    -- suffice, and no thread has left the connection in a bad state. Then, in whatever order the
    -- threads take their rounds, what they have returned is at any time a first part of the replies
    -- on the wire, each value returned by the thread whose number the reply has: none is lost,
    -- doubled, or handed to another thread.
    pub Turns-in_order :
        (t : Threads p l y k fuel)
        → Turns p l y k fuel start t
        → (rest : List Reply) × (t.received ++ rest ≡ sent)
    Turns-in_order t path = let d = Turns-Delivers sent start t started path in (d.rest, d.in_order)
