-- ===== src/Effect.antt =====
-- How a piece of C++ ends, as values: a result, an exception, the end of the process by `exit`,
-- undefined behaviour, or a loop whose fuel was too small. Each carries the state that it leaves.
use ros2_pubsub_benchmark.Prelude.{ℕ}
use ros2_pubsub_benchmark.Prelude.Bytes.{Bytes}

-- The exceptions that the modelled code raises or passes on. `application` is
-- apache::thrift::TApplicationException with its type and message, `protocol` is
-- TProtocolException with its type; `foreign` is any other std::exception, by a number.
pub data Exception : Type 0 where
  application : ℕ → Bytes → Exception
  protocol : ℕ → Exception
  foreign : ℕ → Exception

pub data Ending (S A : Type 0) : Type 0 where
  done : A → S → Ending S A
  threw : Exception → S → Ending S A
  exited : S → Ending S A
  undefined : S → Ending S A
  spinning : S → Ending S A

abbrev pub M : Type 0 → Type 0 → Type 0
M S A = S → Ending S A

-- An ending, with its state seen in another way.
abbrev pub onto : {S T A : Type 0} → (S → T) → Ending S A → Ending T A
onto f (done a s) = done a (f s)
onto f (threw e s) = threw e (f s)
onto f (exited s) = exited (f s)
onto f (undefined s) = undefined (f s)
onto f (spinning s) = spinning (f s)

module _ {S : Type 0} where
  infixl 5 ◌>>=◌ ◌>>◌
  abbrev pub pure : {A : Type 0} → A → M S A
  pure a s = done a s

  abbrev pub throw : {A : Type 0} → Exception → M S A
  throw e s = threw e s

  abbrev pub continue : {A B : Type 0} → Ending S A → (A → M S B) → Ending S B
  continue (done a s) f = f a s
  continue (threw e s) f = threw e s
  continue (exited s) f = exited s
  continue (undefined s) f = undefined s
  continue (spinning s) f = spinning s

  abbrev pub ◌>>=◌ : {A B : Type 0} → M S A → (A → M S B) → M S B
  ◌>>=◌ m f s = continue (m s) f

  abbrev pub ◌>>◌ : {B : Type 0} → M S (Unit {0}) → M S B → M S B
  m >> k = m >>= λ _. k

  abbrev pub modify : (S → S) → M S (Unit {0})
  modify f s = done tt (f s)
