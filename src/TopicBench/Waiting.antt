-- ===== src/TopicBench/Waiting.antt =====
-- Topics as lists of the messages that wait for them: they hand out only what has been published.
use ros2_pubsub_benchmark.Prelude.{
  ◌≡◌, ◌≢◌, refl, sym, subst, ◌⊎◌, inl, inr, List, [], ◌∷◌, ◌++◌, some, Bool, true, false,
  Bool-cases,
}
use ros2_pubsub_benchmark.Prelude.Bytes.{Bytes, same_bytes, same_bytes_iff}
use ros2_pubsub_benchmark.TopicBench.{Message, Topics, TopicsLaws}

-- x is one of the messages that wait.
abbrev pub Among : Message → List Message → Type 0
Among x [] = ⊥
Among x (y ∷ ys) = (x ≡ y) ⊎ Among x ys

pub Among-append :
    (x y : Message) (ys : List Message) → Among x (ys ++ y ∷ []) → Among x ys ⊎ (x ≡ y)
Among-append x y [] (inl e) = inr e
Among-append x y [] (inr h) = absurd h
Among-append x y (z ∷ zs) (inl e) = inl (inl e)
Among-append x y (z ∷ zs) (inr h) = elim (Among-append x y zs h) [
  | inl old ↦ inl (inr old)
  | inr new ↦ inr new
]

-- Two names are the same or not.
names : (a b : Bytes) → (a ≡ b) ⊎ (a ≢ b)
names a b = elim (Bool-cases (same_bytes a b)) [
  | inl same ↦ inl ((same_bytes_iff a b).0 same)
  | inr other ↦ inr (λ e. absurd (clash (same_bytes a b) other ((same_bytes_iff a b).1 e)))
]
  where
    clash : (t : Bool) → t ≡ false → t ≡ true → ⊥
    clash t h h' = cc

module _ (m : Topics) (waiting : Bytes → m.State → List Message)
    (published : (name : Bytes) (x y : Message) (s : m.State)
      → Among y (waiting name (m.publish name x s))
      → Among y (waiting name s) ⊎ (y ≡ x))
    (publish_others : (name other : Bytes) (x : Message) (s : m.State)
      → other ≢ name
      → waiting other (m.publish name x s) ≡ waiting other s)
    (take_waiting : (name : Bytes) (x : Message) (s s' : m.State)
      → m.take name s ≡ some (x, s')
      → waiting name s ≡ x ∷ waiting name s')
    (take_others : (name other : Bytes) (x : Message) (s s' : m.State)
      → m.take name s ≡ some (x, s')
      → other ≢ name
      → waiting other s' ≡ waiting other s) where
  abbrev Waits : Bytes → Message → m.State → Type 0
  Waits name x s = Among x (waiting name s)

  publish-Waits :
      (name other : Bytes) (x y : Message) (s : m.State)
      → Waits other y (m.publish name x s)
      → Waits other y s ⊎ ((other ≡ name) × (y ≡ x))
  publish-Waits name other x y s h = elim (names other name) [
    | inl same ↦ elim (published name x y s (subst (λ n. Waits n y (m.publish name x s)) same h)) [
      | inl old ↦ inl (subst (λ n. Waits n y s) (sym same) old)
      | inr new ↦ inr (same, new)
    ]
    | inr differ ↦ inl (subst (Among y) (publish_others name other x s differ) h)
  ]

  taken_keeps :
      (name other : Bytes) (x y : Message) (s s' : m.State)
      → m.take name s ≡ some (x, s')
      → Waits other y s'
      → Waits other y s
  taken_keeps name other x y s s' taken h = elim (names other name) [
    | inl same ↦
        let here = subst (λ n. Waits n y s') same h in
        let there : Waits name y s =
          subst (Among y) (sym (take_waiting name x s s' taken)) (inr here) in
        subst (λ n. Waits n y s) (sym same) there
    | inr differ ↦ subst (Among y) (take_others name other x s s' taken differ) h
  ]

  pub waiting_laws : ((name : Bytes) → waiting name m.start ≡ []) → TopicsLaws m
  waiting_laws start_waiting = record {
    Holds = Waits;
    start_empty = λ name x h. subst (Among x) (start_waiting name) h;
    publish_holds = publish-Waits;
    take_holds =
        λ name x s s' taken. subst (Among x) (sym (take_waiting name x s s' taken)) (inl refl);
    take_keeps = taken_keeps;
  }
