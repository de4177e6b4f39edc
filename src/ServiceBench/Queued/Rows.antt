-- ===== src/ServiceBench/Queued/Rows.antt =====
-- What the turns of psrv/src/srv.cpp do to the row of the requests under way.
use ros2_pubsub_benchmark.Prelude.{
  ℕ, suc, ◌+◌, ◌≤◌, ◌<◌, ◌≡◌, ◌≢◌, refl, ap, sym, ◌∙◌, inl, inr, List, [], ◌∷◌, ◌++◌, append-nil,
  append_assoc, length, length-append, List-cases, some, arith,
}
use native.Mathlib.Decide.{dec_lt}
use ros2_pubsub_benchmark.Prelude.Bytes.{Bytes}
use ros2_pubsub_benchmark.Prelude.Digits.{to_string-inj}
use ros2_pubsub_benchmark.ThriftBench.Sink.{num_relays}
use ros2_pubsub_benchmark.TopicBench.{Message, Topics}
use ros2_pubsub_benchmark.TopicBench.Line.{history_depth, FifoLaws, row}
use ros2_pubsub_benchmark.TopicBench.Line.Rows.{row-same, row-first, row-pair}
use ros2_pubsub_benchmark.ServiceBench.Nodes.{service_name}
use ros2_pubsub_benchmark.ServiceBench.Queued.{requests_at}

service_name-neq : (i j : ℕ) → i ≢ j → service_name i ≢ service_name j
unfolding service_name
service_name-neq i j differ e = differ (to_string-inj i j (cc (e)))

-- In a row, a full queue drops its oldest request, and `new` comes in the place of `old`.
pub record Changes (free : Type 0) (old new was now : List Message) : Type 0 where
  pub before : List Message
  pub dropped : List Message
  pub kept : List Message
  pub behind : List Message
  pub from : was ≡ before ++ (dropped ++ (kept ++ (old ++ behind)))
  pub into : now ≡ before ++ (kept ++ (new ++ behind))
  pub room : free → dropped ≡ []

pub Changes-count :
    {free : Type 0} (old new was now : List Message) (c : Changes free old new was now)
    → length now + length old + length c.dropped ≡ length was + length new
Changes-count old new was now c =
    let size = ap (λ (xs : List Message). length xs) c.from in
    let size' = ap (λ (xs : List Message). length xs) c.into in
    omega (
      arith,
      size,
      size',
      length-append c.before (c.dropped ++ (c.kept ++ (old ++ c.behind))),
      length-append c.dropped (c.kept ++ (old ++ c.behind)),
      length-append c.kept (old ++ c.behind),
      length-append old c.behind,
      length-append c.before (c.kept ++ (new ++ c.behind)),
      length-append c.kept (new ++ c.behind),
      length-append new c.behind,
    )

pub Changes-length :
    {free : Type 0} (old new was now : List Message)
    → Changes free old new was now
    → free
    → length now + length old ≡ length was + length new
Changes-length old new was now c f =
    let none_dropped = ap (λ (xs : List Message). length xs) (c.room f) in
    omega (arith, none_dropped, Changes-count old new was now c)

module _ (m : Topics) (k : FifoLaws m) where
  pub take-others :
      (i j : ℕ) (x : Message) (s s' : m.State)
      → m.take (service_name i) s ≡ some (x, s')
      → j ≢ i
      → requests_at m k s j ≡ requests_at m k s' j
  take-others i j x s s' e differ =
      sym (k.take_others (service_name i) (service_name j) x s s' e (service_name-neq j i differ))

  pub send-others :
      (i j : ℕ) (x : Message) (s : m.State)
      → j ≢ i
      → requests_at m k s j ≡ requests_at m k (m.publish (service_name i) x s) j
  send-others i j x s differ =
      sym (k.publish_others (service_name i) (service_name j) x s (service_name-neq j i differ))

  -- The queue behind a new request.
  record Joins (name : Bytes) (x : Message) (s : m.State) : Type 0 where
    dropped : List Message
    kept : List Message
    from : k.waiting name s ≡ dropped ++ kept
    into : k.waiting name (m.publish name x s) ≡ kept ++ x ∷ []
    room : length (k.waiting name s) < history_depth → dropped ≡ []

  joins : (name : Bytes) (x : Message) (s : m.State) → Joins name x s
  joins name x s = elim (dec_lt (length (k.waiting name s)) history_depth) [
    | yes free ↦ record {
      dropped = [];
      kept = k.waiting name s;
      from = refl;
      into = k.publish_room name x s free;
      room = λ h. refl;
    }
    | no full ↦ elim (List-cases (k.waiting name s)) [
      | inl nothing ↦ absurd (omega (arith, full, ap (λ (xs : List Message). length xs) nothing))
      | inr (z, zs, e) ↦
          let many : history_depth ≤ length (z ∷ zs) =
            omega (arith, full, ap (λ (xs : List Message). length xs) e) in
          record {
            dropped = z ∷ [];
            kept = zs;
            from = e;
            into = k.publish_full name x z zs s e many;
            room = λ h. absurd (full h);
          }
    ]
  ]

  pub length-send :
      (name : Bytes) (x : Message) (s : m.State)
      → length (k.waiting name (m.publish name x s)) ≤ suc (length (k.waiting name s))
  length-send name x s =
      let j = joins name x s in
      rw (j.into, j.from)
        (omega (arith, length-append j.kept (x ∷ []), length-append j.dropped j.kept))

  -- A new request of the client's.
  pub send-Changes :
      (x : Message) (s : m.State)
      → (c : Changes
          (length (requests_at m k s 0) < history_depth)
          []
          (x ∷ [])
          (row (suc num_relays) (requests_at m k s))
          (row (suc num_relays) (requests_at m k (m.publish (service_name 0) x s))))
        × (c.behind ≡ [])
  send-Changes x s =
      let s' = m.publish (service_name 0) x s in
      let (before, shape, shape') =
        row-first (requests_at m k s) (requests_at m k s') num_relays
          (λ j differ. send-others 0 j x s differ) in
      let j = joins (service_name 0) x s in
      (
        record {
          before = before;
          dropped = j.dropped;
          kept = j.kept;
          behind = [];
          from = rw (shape, j.from, append-nil) refl;
          into = rw (shape', j.into) refl;
          room = j.room;
        },
        refl,
      )

  -- A request goes on to the next service.
  pub pass-Changes :
      (i : ℕ) (x y : Message) (s rest : m.State)
      → i < num_relays
      → m.take (service_name i) s ≡ some (x, rest)
      → Changes
          (length (requests_at m k s (suc i)) < history_depth)
          (x ∷ [])
          (y ∷ [])
          (row (suc num_relays) (requests_at m k s))
          (row (suc num_relays) (requests_at m k (m.publish (service_name (suc i)) y rest)))
  pass-Changes i x y s rest within taken =
      let s' = m.publish (service_name (suc i)) y rest in
      let front = k.take_waiting (service_name i) x s rest taken in
      let here : requests_at m k s' i ≡ requests_at m k rest i =
        sym (send-others (suc i) i y rest (λ z. absurd (omega (arith, z)))) in
      let kept_there : requests_at m k s (suc i) ≡ requests_at m k rest (suc i) =
        take-others i (suc i) x s rest taken (λ z. absurd (omega (arith, z))) in
      let j = joins (service_name (suc i)) y rest in
      let (before, behind, shape, shape') =
        row-pair (requests_at m k s) (requests_at m k s') (suc num_relays) i (omega arith)
          (λ n d d'. take-others i n x s rest taken d ∙ send-others (suc i) n y rest d') in
      record {
        before = before;
        dropped = j.dropped;
        kept = j.kept;
        behind = requests_at m k rest i ++ behind;
        from = rw (shape, front, kept_there, j.from, append_assoc) refl;
        into = rw (shape', here, j.into, append_assoc) refl;
        room = λ h. j.room (rw kept_there at h);
      }

  -- The sink service is handed the first request of the row.
  pub take-row :
      (x : Message) (s rest : m.State)
      → m.take (service_name num_relays) s ≡ some (x, rest)
      → row (suc num_relays) (requests_at m k s) ≡ x ∷ row (suc num_relays) (requests_at m k rest)
  take-row x s rest taken =
      let front = k.take_waiting (service_name num_relays) x s rest taken in
      let others =
        row-same (requests_at m k s) (requests_at m k rest) num_relays
          (λ j h. take-others num_relays j x s rest taken (λ z. absurd (omega (arith, z)))) in
      rw (front, others) refl
