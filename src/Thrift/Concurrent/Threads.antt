-- ===== src/Thrift/Concurrent/Threads.antt =====
-- Threads that share a connection and take their rounds in any order.
pub mod Delivery
use ros2_pubsub_benchmark.Prelude.{
  ℕ, ◌+◌, ◌≤◌, ◌<◌, ◌≡◌, refl, ap, ◌≢◌, List, [], ◌∷◌, ◌++◌, All, Bool, true, false, Option, some,
  none,
}
use ros2_pubsub_benchmark.Prelude.Int.{ℤ}
use ros2_pubsub_benchmark.Effect.{done}
use ros2_pubsub_benchmark.Thrift.Protocol.{Protocol, Laws}
use ros2_pubsub_benchmark.Thrift.Protocol.Wire.{View}
use ros2_pubsub_benchmark.Thrift.Protocol.Rules.{Runs}
use ros2_pubsub_benchmark.Thrift.Timing.{eq_int64}
use ros2_pubsub_benchmark.Thrift.Timing.Equality.{eq_int64_iff}
use ros2_pubsub_benchmark.Thrift.Concurrent.{
  Sync, Outcome, answer, Shared, handle_message, recv_round, settle_recv,
}
use ros2_pubsub_benchmark.Thrift.Concurrent.Rounds.{
  SyncView, SyncLaws, without, Reply, stream, shared_view, untouched, taken, read_on, header_of,
  round-untouched, round-taken, handle_message-own, handle_message-other,
}

module _ (p : Protocol) (l : Laws p) (y : Sync p) (k : SyncLaws p y) (fuel : ℕ) where
  -- What the threads share, and what they have returned so far, in the order of their returns.
  pub record Threads : Type 0 where
    pub shared : Shared p y
    pub received : List Reply

  -- A thread that waits for the answer to its call takes a round, once something is there to read:
  -- it returns, with its sentry's destructor, or it goes on to wait in waitForWork, which lets other
  -- threads take their turns.
  pub data Turn (t : Threads) : Threads → Type 0 where
    returns :
        (seqid x : ℤ) (o : Outcome) (s s' : Shared p y)
        → (k.view t.shared.1).callers seqid ≡ true
        → (l.view t.shared.0).incoming ≢ []
        → recv_round p y fuel seqid t.shared ≡ done (some o) s
        → settle_recv p y seqid (done o s) ≡ done x s'
        → Turn t (record {
          shared = s';
          received = t.received ++ record { seqid = seqid; value = x } ∷ [];
        })
    waits :
        (seqid : ℤ) (s s' : Shared p y)
        → (k.view t.shared.1).callers seqid ≡ true
        → (l.view t.shared.0).incoming ≢ []
        → recv_round p y fuel seqid t.shared ≡ done none s
        → y.wait_for_work seqid s ≡ done tt s'
        → Turn t (record { shared = s'; received = t.received })

  pub data Turns (t : Threads) : Threads → Type 0 where
    here : Turns t t
    next : {t' t'' : Threads} → Turns t t' → Turn t' t'' → Turns t t''

-- No two replies have one sequence number.
abbrev pub Distinct : List Reply → Type 0
Distinct [] = Unit {0}
Distinct (r ∷ rs) = All (λ (q : Reply). eq_int64 q.seqid r.seqid ≡ false) rs × Distinct rs

abbrev pub Expected : (ℤ → Bool) → List Reply → Type 0
Expected callers = All (λ (r : Reply). callers r.seqid ≡ true)

pub Expected-without :
    (n : ℤ) (callers : ℤ → Bool) (rs : List Reply)
    → All (λ (q : Reply). eq_int64 q.seqid n ≡ false) rs
    → Expected callers rs
    → Expected (without n callers) rs
Expected-without n callers [] h e = tt
Expected-without n callers (r ∷ rs) h e = (rw h.0 e.0, Expected-without n callers rs h.1 e.1)

pub eq_int64_self : (n : ℤ) → eq_int64 n n ≡ true
eq_int64_self n = (eq_int64_iff n n).1 refl

module _ (p : Protocol) (l : Laws p) (y : Sync p) (k : SyncLaws p y) (fuel : ℕ) (enough : 1 < fuel)
    (v : View) (u : SyncView) (fits : v.input_depth + 2 ≤ l.limit) (good : u.stopped ≡ false) where
  -- The shared state, when the replies rs are still to come and the threads in `callers` wait.
  pub data Looks (s : Shared p y) (callers : ℤ → Bool) : List Reply → Type 0 where
    fresh :
        (rs : List Reply)
        → shared_view p l y k s ≡ untouched p l y k v (record u { callers = callers }) rs
        → Looks s callers rs
    begun :
        (r : Reply) (rs : List Reply)
        → shared_view p l y k s ≡ taken p l y k v (record u { callers = callers }) r rs
        → Looks s callers (r ∷ rs)

  -- The returns so far and the replies to come, in one row, are the replies that were sent.
  pub record Delivers (sent : List Reply) (t : Threads p l y k fuel) : Type 0 where
    pub rest : List Reply
    pub callers : ℤ → Bool
    pub looks : Looks t.shared callers rest
    pub in_order : t.received ++ rest ≡ sent
    pub distinct : Distinct rest
    pub expected : Expected callers rest

  module _ (s : Shared p y) (callers : ℤ → Bool) (r : Reply) (rs : List Reply)
      (waited : callers r.seqid ≡ true) where
    round-begins :
        (seqid : ℤ) {a : Option Outcome} {w : View × SyncView}
        → Looks s callers (r ∷ rs)
        → Runs
            (shared_view p l y k)
            (handle_message p y fuel seqid (header_of r.seqid))
            (read_on p l y k v (record u { callers = callers }) r rs)
            a
            w
        → (s' : Shared p y) × (recv_round p y fuel seqid s ≡ done a s')
          × (shared_view p l y k s' ≡ w)
    round-begins seqid (fresh _ e) h =
        (round-untouched p l y k v (record u { callers = callers }) fuel enough fits good seqid r rs
            h).run
          s e
    round-begins seqid (begun _ _ e) h =
        (round-taken p l y k v (record u { callers = callers }) fuel enough fits good seqid r rs
            h).run
          s e

    pub round-own :
        Looks s callers (r ∷ rs)
        → (s' : Shared p y) × (recv_round p y fuel r.seqid s ≡ done (some (answer r.value)) s')
          × (shared_view p l y k s' ≡ untouched p l y k v (record u { callers = callers }) rs)
    round-own looks = round-begins r.seqid looks (
        handle_message-own p l y k v (record u { callers = callers }) fuel enough fits good r rs
          (eq_int64_self r.seqid))

    pub round-other :
        (seqid : ℤ)
        → eq_int64 seqid r.seqid ≡ false
        → Looks s callers (r ∷ rs)
        → (s' : Shared p y) × (recv_round p y fuel seqid s ≡ done none s')
          × (shared_view p l y k s' ≡ taken p l y k v (record u { callers = callers }) r rs)
    round-other seqid differs looks = round-begins seqid looks (
        handle_message-other p l y k v (record u { callers = callers }) fuel enough fits good seqid
          r rs differs waited)

  pub settled_view :
      (s : Shared p y) (n : ℤ) (callers : ℤ → Bool) (rs : List Reply)
      → shared_view p l y k s ≡ untouched p l y k v (record u { callers = callers }) rs
      → shared_view p l y k (s.0, y.end_recv n true s.1)
        ≡ untouched p l y k v (record u { callers = without n callers }) rs
  settled_view s n callers rs e =
      let here : l.view s.0 ≡ record v { incoming = stream rs } =
        ap (λ (q : View × SyncView). q.0) e in
      let there : k.view s.1 ≡ record u { callers = callers; pending = none } =
        ap (λ (q : View × SyncView). q.1) e in
      cc (here, there, k.end_recv_view s.1 n)
