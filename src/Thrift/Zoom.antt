-- ===== src/Thrift/Zoom.antt =====
-- Computations on one half of a pair of states, with their rules.
use ros2_pubsub_benchmark.Prelude.{◌≡◌, refl, ap}
use ros2_pubsub_benchmark.Effect.{Exception, done, threw, exited, undefined, spinning, M}
use ros2_pubsub_benchmark.Thrift.Protocol.Rules.{Runs, Throws, Exits}

module _ {S W : Type 0} where
  abbrev pub on_first : {A : Type 0} → M S A → M (S × W) A
  on_first m (s, w) = elim (m s) [
    | done a s' ↦ done a (s', w)
    | threw e s' ↦ threw e (s', w)
    | exited s' ↦ exited (s', w)
    | undefined s' ↦ undefined (s', w)
    | spinning s' ↦ spinning (s', w)
  ]

  abbrev pub on_second : {A : Type 0} → M W A → M (S × W) A
  on_second m (s, w) = elim (m w) [
    | done a w' ↦ done a (s, w')
    | threw e w' ↦ threw e (s, w')
    | exited w' ↦ exited (s, w')
    | undefined w' ↦ undefined (s, w')
    | spinning w' ↦ spinning (s, w')
  ]

  -- Both halves, each through its view.
  abbrev pub both : {V U : Type 0} → (S → V) → (W → U) → S × W → V × U
  both f g (s, w) = (f s, g w)

  module _ {V U : Type 0} (f : S → V) (g : W → U) where
    first : (s : S × W) {v : V} {u : U} → both f g s ≡ (v, u) → f s.0 ≡ v
    first s e = ap (λ (x : V × U). x.0) e

    second : (s : S × W) {v : V} {u : U} → both f g s ≡ (v, u) → g s.1 ≡ u
    second s e = ap (λ (x : V × U). x.1) e

    pub Runs-on_first :
        {A : Type 0} {m : M S A} {v v' : V} {a : A} (u : U)
        → Runs f m v a v'
        → Runs (both f g) (on_first m) (v, u) a (v', u)
    Runs-on_first {m} u h = record {
      run = λ s e.
          let (s', r, e') = h.run s.0 (first s e) in
          ((s', s.1), (rw (r, on_first) refl), cc (e', second s e));
    }

    pub Runs-on_second :
        {A : Type 0} {m : M W A} (v : V) {u u' : U} {a : A}
        → Runs g m u a u'
        → Runs (both f g) (on_second m) (v, u) a (v, u')
    Runs-on_second v h = record {
      run = λ s e.
          let (w', r, e') = h.run s.1 (second s e) in
          ((s.0, w'), (rw (r, on_second) refl), cc (e', first s e));
    }

    pub Throws-on_first :
        {A : Type 0} {m : M S A} {v v' : V} {x : Exception} (u : U)
        → Throws f m v x v'
        → Throws (both f g) (on_first m) (v, u) x (v', u)
    Throws-on_first u h = record {
      run = λ s e.
          let (s', r, e') = h.run s.0 (first s e) in
          ((s', s.1), (rw (r, on_first) refl), cc (e', second s e));
    }

    pub Exits-on_second :
        {A : Type 0} {m : M W A} (v : V) {u u' : U}
        → Exits g m u u'
        → Exits (both f g) (on_second m) (v, u) (v, u')
    Exits-on_second v h = record {
      run = λ s e.
          let (w', r, e') = h.run s.1 (second s e) in
          ((s.0, w'), (rw (r, on_second) refl), cc (e', first s e));
    }
