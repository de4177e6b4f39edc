-- ===== src/Thrift/Settled.antt =====
-- Computations that end on every input, by a return or an exception, or by the end of the process
-- where `Exits` allows it: not for want of fuel, and not in undefined behaviour.
use ros2_pubsub_benchmark.Prelude.{ℕ, ◌≤◌, ◌<◌, Bool, true, false, arith, if◌then◌else◌}
use ros2_pubsub_benchmark.Effect.{Exception, Ending, done, threw, exited, M, continue, ◌>>=◌}
use ros2_pubsub_benchmark.Thrift.Fields.{release}
use ros2_pubsub_benchmark.Thrift.Zoom.{on_first, on_second}

-- A returned value and its state meet P.
pub data Settled {S A : Type 0} (Exits : Type 0) (P : A → S → Type 0) : Ending S A → Type 0 where
  by_return : (a : A) (s : S) → P a s → Settled Exits P (done a s)
  by_throw : (e : Exception) (s : S) → Settled Exits P (threw e s)
  by_exit : (s : S) → Exits → Settled Exits P (exited s)

-- The input that is left afterwards is no longer than before.
abbrev pub Uses : {S A : Type 0} → (S → ℕ) → M S A → Type 0
Uses remaining m = (s : _) → Settled ⊥ (λ _ s'. remaining s' ≤ remaining s) (m s)

pub Settled-continue :
    {S A B X : Type 0} {P : A → S → Type 0} {Q : B → S → Type 0} {e : Ending S A} (f : A → M S B)
    → Settled X P e
    → ((a : A) (s : S) → P a s → Settled X Q (f a s))
    → Settled X Q (continue e f)
Settled-continue f (by_return a s h) k = k a s h
Settled-continue f (by_throw e s) k = by_throw e s
Settled-continue f (by_exit s x) k = by_exit s x

pub Settled-weaken :
    {S A X Y : Type 0} {P Q : A → S → Type 0} {e : Ending S A}
    → (X → Y)
    → ((a : A) (s : S) → P a s → Q a s)
    → Settled X P e
    → Settled Y Q e
Settled-weaken x k (by_return a s h) = by_return a s (k a s h)
Settled-weaken x k (by_throw e s) = by_throw e s
Settled-weaken x k (by_exit s h) = by_exit s (x h)

pub Settled-release :
    {S A X : Type 0} {P Q : A → S → Type 0} {e : Ending S A} (leave : S → S)
    → ((a : A) (s : S) → P a s → Q a (leave s))
    → Settled X P e
    → Settled X Q (release leave e)
Settled-release leave k (by_return a s h) = by_return a (leave s) (k a s h)
Settled-release leave k (by_throw e s) = by_throw e (leave s)
Settled-release leave k (by_exit s x) = by_exit s x

-- The two halves of a pair of states.
module _ {S W A Exits : Type 0} where
  pub Settled-on_first :
      {P : A → S → Type 0} {e : Ending S A} (Q : A → S × W → Type 0) (s : S) (w : W)
      → Settled ⊥ P e
      → ((a : A) (s' : S) → P a s' → Q a (s', w))
      → Settled Exits Q (on_first (λ _. e) (s, w))
  Settled-on_first Q s w (by_return a s' h) k = by_return a (s', w) (k a s' h)
  Settled-on_first Q s w (by_throw x s') k = by_throw x (s', w)
  Settled-on_first Q s w (by_exit s' h) k = absurd h

  pub Settled-on_second :
      {P : A → W → Type 0} {e : Ending W A} (Q : A → S × W → Type 0) (s : S) (w : W)
      → Settled Exits P e
      → ((a : A) (w' : W) → Q a (s, w'))
      → Settled Exits Q (on_second (λ _. e) (s, w))
  Settled-on_second Q s w (by_return a w' h) k = by_return a (s, w') (k a w')
  Settled-on_second Q s w (by_throw x w') k = by_throw x (s, w')
  Settled-on_second Q s w (by_exit w' h) k = by_exit (s, w') h

-- With less than `fuel` bytes of input left, m settles, with a value that meets Q, and leaves no
-- more input.
module _ {S : Type 0} (remaining : S → ℕ) (Exits : Type 0) (fuel : ℕ) where
  pub record Ends {A : Type 0} (Q : A → Type 0) (m : M S A) : Type 0 where
    pub settles :
        (s : S) (b : ℕ)
        → remaining s ≤ b
        → b < fuel
        → Settled Exits (λ a s'. Q a × (remaining s' ≤ b)) (m s)

  pub Ends-of_Uses : {A : Type 0} {m : M S A} → Uses remaining m → Ends (λ _. Unit {0}) m
  Ends-of_Uses law = record {
    settles = λ s b h _. Settled-weaken absurd (λ a s' k. (tt, omega arith)) (law s);
  }

  pub Ends-pure : {A : Type 0} (Q : A → Type 0) (a : A) → Q a → Ends Q (λ s. done a s)
  Ends-pure Q a q = record { settles = λ s b h _. by_return a s (q, h) }

  pub Ends-throw : {A : Type 0} (Q : A → Type 0) (e : Exception) → Ends Q (λ s. threw e s)
  Ends-throw Q e = record { settles = λ s b h _. by_throw e s }

  pub Ends-bind :
      {A B : Type 0} {Q : A → Type 0} {R : B → Type 0} {m : M S A} (f : A → M S B)
      → Ends Q m
      → ((a : A) → Q a → Ends R (f a))
      → Ends R (m >>= f)
  Ends-bind f h k = record {
    settles = λ s b e within.
        Settled-continue f (h.settles s b e within) (λ a s' q. (k a q.0).settles s' b q.1 within);
  }

  pub Ends-if :
      (t : Bool) {A : Type 0} {Q : A → Type 0} {m m' : M S A}
      → Ends Q m
      → Ends Q m'
      → Ends Q (if t then m else m')
  Ends-if true h k = h
  Ends-if false h k = k
