-- ===== src/Thrift/Protocol/Rules.antt =====
-- "From a state that looks like v, m returns a and leaves a state that looks like w", with the rules
-- for sequencing and branching. The view of a state is what can be said of it.
use ros2_pubsub_benchmark.Prelude.{◌≡◌, refl, Bool, true, false, arith, if◌then◌else◌}
use ros2_pubsub_benchmark.Effect.{Exception, done, threw, exited, M, ◌>>=◌}

pub record Runs {S V A : Type 0} (view : S → V) (m : M S A) (v : V) (a : A) (w : V) : Type 0 where
  pub run : (s : S) → view s ≡ v → (s' : S) × (m s ≡ done a s') × (view s' ≡ w)

module _ {S V A : Type 0} {view : S → V} where
  pub Runs-bind :
      {B : Type 0} {m : M S A} (f : A → M S B) {v u w : V} {a : A} {b : B}
      → Runs view m v a u
      → Runs view (f a) u b w
      → Runs view (m >>= f) v b w
  Runs-bind f h k = record {
    run = λ s e.
        let (s', r, e') = h.run s e in let (s'', r', e'') = k.run s' e' in (s'', ground arith, e'');
  }

  pub Runs-pure : (a : A) (v : V) → Runs view (λ s. done a s) v a v
  Runs-pure a v = record { run = λ s e. (s, refl, e) }

  -- A branch on a test, with the same test in the result.
  pub Runs-if :
      (b : Bool) {B : Type 0} {m m' : M S (B × A)} {v w : V} {n : B} {a a' : A}
      → Runs view m v (n, a) w
      → Runs view m' v (n, a') w
      → Runs view (if b then m else m') v (n, if b then a else a') w
  Runs-if true h k = h
  Runs-if false h k = k

  pub Runs-if_same :
      (b : Bool) {m m' : M S A} {v w : V} {a : A}
      → (b ≡ true → Runs view m v a w)
      → (b ≡ false → Runs view m' v a w)
      → Runs view (if b then m else m') v a w
  Runs-if_same true h k = h refl
  Runs-if_same false h k = k refl

  pub Runs-either :
      (b : Bool) {m : M S A} {v w : V} {a : A}
      → Runs view m v a w
      → Runs view (if b then m else m) v a w
  Runs-either b h = Runs-if_same b (λ _. h) (λ _. h)

  pub Runs-eq :
      {m : M S A} {v w w' : V} {a a' : A}
      → Runs view m v a w
      → a ≡ a'
      → w ≡ w'
      → Runs view m v a' w'
  Runs-eq h e f = rw (← e, ← f) h

-- The same for an exception, and for the end of the process.
pub record Throws {S V A : Type 0} (view : S → V) (m : M S A) (v : V) (x : Exception) (w : V)
    : Type 0 where
  pub run : (s : S) → view s ≡ v → (s' : S) × (m s ≡ threw x s') × (view s' ≡ w)

pub record Exits {S V A : Type 0} (view : S → V) (m : M S A) (v : V) (w : V) : Type 0 where
  pub run : (s : S) → view s ≡ v → (s' : S) × (m s ≡ exited s') × (view s' ≡ w)

module _ {S V A B : Type 0} {view : S → V} where
  pub Throws-bind :
      {m : M S A} (f : A → M S B) {v u w : V} {a : A} {x : Exception}
      → Runs view m v a u
      → Throws view (f a) u x w
      → Throws view (m >>= f) v x w
  Throws-bind f h k = record {
    run = λ s e.
        let (s', r, e') = h.run s e in let (s'', r', e'') = k.run s' e' in (s'', ground arith, e'');
  }

  pub Exits-bind :
      {m : M S A} (f : A → M S B) {v u w : V} {a : A}
      → Runs view m v a u
      → Exits view (f a) u w
      → Exits view (m >>= f) v w
  Exits-bind f h k = record {
    run = λ s e.
        let (s', r, e') = h.run s e in let (s'', r', e'') = k.run s' e' in (s'', ground arith, e'');
  }

  pub Exits-first :
      {m : M S A} (f : A → M S B) {v w : V} → Exits view m v w → Exits view (m >>= f) v w
  Exits-first f h = record { run = λ s e. let (s', r, e') = h.run s e in (s', ground arith, e') }
