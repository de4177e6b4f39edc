-- ===== src/Thrift/Fields.antt =====
-- The parts that every generated `read` and `write` repeats: the recursion tracker, the loop over
-- the fields of a struct, and the branch that skips a field.
pub mod Loop
pub mod Ends
use ros2_pubsub_benchmark.Prelude.{ℕ, zero, suc, List, [], ◌∷◌, Bool, true, false}
use ros2_pubsub_benchmark.Prelude.Int.{ℤ}
use ros2_pubsub_benchmark.Effect.{Ending, done, threw, exited, undefined, spinning, M, pure, ◌>>=◌}
use ros2_pubsub_benchmark.Thrift.Protocol.{Protocol}
use ros2_pubsub_benchmark.Thrift.Protocol.Wire.{TType, add_u32}

-- A destructor runs when its scope is left by a return or by an exception.
abbrev pub release : {S A : Type 0} → (S → S) → Ending S A → Ending S A
release leave (done a s) = done a (leave s)
release leave (threw e s) = threw e (leave s)
release leave (exited s) = exited s
release leave (undefined s) = undefined s
release leave (spinning s) = spinning s

-- `xfer` after a row of `xfer += n`.
unfoldable pub add_all : ℕ → List ℕ → ℕ
add_all xfer [] = xfer
add_all xfer (n ∷ ns) = add_all (add_u32 xfer n) ns

unfoldable pub is_stop : TType → Bool
is_stop TType.stop = true
is_stop _ = false

unfoldable pub is_i64 : TType → Bool
is_i64 TType.i64 = true
is_i64 _ = false

unfoldable pub is_string : TType → Bool
is_string TType.string = true
is_string _ = false

unfoldable pub is_struct : TType → Bool
is_struct TType.struct = true
is_struct _ = false

module _ (p : Protocol) where
  open p use {
    State, enter_input, leave_input, enter_output, leave_output, read_field_begin, read_field_end,
    skip,
  }

  -- TInputRecursionTracker and TOutputRecursionTracker around a body.
  unfoldable pub tracked_input : {A : Type 0} → M State A → M State A
  tracked_input body = enter_input >>= λ _ s. release leave_input (body s)

  unfoldable pub tracked_output : {A : Type 0} → M State A → M State A
  tracked_output body = enter_output >>= λ _ s. release leave_output (body s)

  -- `xfer += iprot->skip(ftype)`: the number of bytes, and the object as it was.
  unfoldable pub skip_field : {A : Type 0} → TType → A → M State (ℕ × A)
  skip_field ftype this = skip ftype >>= λ n. pure (n, this)

  module _ {A : Type 0} (on_field : TType → ℤ → A → M State (ℕ × A)) where
    -- One round of the loop behind the field header; `rest` is the next round.
    after_header : (ℕ → A → M State (ℕ × A)) → ℕ → TType → ℤ → A → M State (ℕ × A)
    unfolding is_stop
    after_header rest xfer ftype fid this = elim (is_stop ftype) [
      | true ↦ pure (xfer, this)
      | false ↦ (do
        r ← on_field ftype fid this
        n ← read_field_end
        rest (add_u32 (add_u32 xfer r.0) n) r.1)
    ]

    -- `while (true) { … }` over the fields, with fuel. `on_field` is the `switch (fid)`.
    unfoldable pub read_fields : ℕ → ℕ → A → M State (ℕ × A)
    unfolding after_header
    read_fields zero xfer this = λ s. spinning s
    read_fields (suc fuel) xfer this =
        read_field_begin >>= λ r. after_header (read_fields fuel) (add_u32 xfer r.0) r.1 r.2 this
