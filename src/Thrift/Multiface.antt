-- ===== src/Thrift/Multiface.antt =====
-- BenchMultiface and BenchNull of thrift-bench/gen-cpp/Bench.h.
use ros2_pubsub_benchmark.Prelude.{
  ℕ, zero, suc, ◌+◌, ◌-◌, ◌%◌, ◌^◌, ◌<◌, ◌≡◌, refl, List, [], ◌∷◌, ◌++◌, append_assoc, none, some,
  length, length-append, get_elem?, arith,
}
use ros2_pubsub_benchmark.Prelude.Int.{ℤ, pos}
use ros2_pubsub_benchmark.Effect.{
  Ending, done, threw, exited, undefined, spinning, M, pure, continue, ◌>>=◌,
}
use ros2_pubsub_benchmark.Thrift.Timing.{Timing}

-- BenchNull::bench.
unfoldable pub null_bench : {W : Type 0} → Timing → M W ℤ
null_bench arg = pure (pos 0)

-- BenchMultiface::add.
unfoldable pub add_interface :
    {W : Type 0} → List (Timing → M W ℤ) → (Timing → M W ℤ) → List (Timing → M W ℤ)
add_interface ifaces iface = ifaces ++ iface ∷ []

module _ {W : Type 0} (ifaces : List (Timing → M W ℤ)) (arg : Timing) where
  -- ifaces_[i]->bench(arg); an index out of range is undefined.
  unfoldable pub call_at : ℕ → M W ℤ
  call_at i = elim (get_elem? ifaces i) [ some iface ↦ iface arg | none ↦ (λ w. undefined w) ]

  -- The loop with `left` rounds to go, and the call behind it.
  unfoldable pub call_from : (left i : ℕ) → M W ℤ
  unfolding call_at
  call_from zero i = call_at i
  call_from (suc left) i = call_at i >>= λ _. call_from left (suc i)

  -- BenchMultiface::bench; sz - 1 is of type size_t, and wraps for an empty vector.
  unfoldable pub multi_bench : M W ℤ
  unfolding call_from
  multi_bench = call_from ((length ifaces + 2 ^ 64 - 1) % 2 ^ 64) 0

-- Every interface in its order; the last one's result counts.
abbrev pub in_turn : {W : Type 0} → (Timing → M W ℤ) → List (Timing → M W ℤ) → Timing → M W ℤ
in_turn iface [] arg = iface arg
in_turn iface (next ∷ rest) arg = iface arg >>= λ _. in_turn next rest arg

get_elem?-past :
    {A : Type 0} (before : List A) (a : A) (rest : List A)
    → get_elem? (before ++ a ∷ rest) (length before) ≡ some a
get_elem?-past [] a rest = refl
get_elem?-past (b ∷ before) a rest = get_elem?-past before a rest

continue-eq :
    {S A B : Type 0} (e : Ending S A) (f g : A → M S B)
    → ((a : A) (s : S) → f a s ≡ g a s)
    → continue e f ≡ continue e g
continue-eq (done a s) f g h = h a s
continue-eq (threw e s) f g h = refl
continue-eq (exited s) f g h = refl
continue-eq (undefined s) f g h = refl
continue-eq (spinning s) f g h = refl

call_from-in_turn :
    {W : Type 0} (before : List (Timing → M W ℤ)) (iface : Timing → M W ℤ)
    (rest : List (Timing → M W ℤ)) (arg : Timing) (w : W)
    → call_from (before ++ iface ∷ rest) arg (length rest) (length before) w
      ≡ in_turn iface rest arg w
unfolding call_from call_at
call_from-in_turn before iface [] arg w =
    rw (call_from, call_at, get_elem?-past before iface []) refl
call_from-in_turn before iface (next ∷ rest) arg w =
    let at_next : length (before ++ iface ∷ []) ≡ suc (length before) =
      omega (arith, length-append before (iface ∷ [])) in
    rw (call_from, call_at, get_elem?-past before iface (next ∷ rest))
      (continue-eq (iface arg w) _ _ (λ a s.
        rw (at_next, append_assoc) at (call_from-in_turn (before ++ iface ∷ []) next rest arg s)))

-- With at least one interface, and fewer than 2 ^ 64, BenchMultiface::bench calls every interface
-- once, in their order, and returns what the last one returns; a call that does not return ends it.
pub multi_bench-in_turn :
    {W : Type 0} (iface : Timing → M W ℤ) (rest : List (Timing → M W ℤ)) (arg : Timing) (w : W)
    → suc (length rest) < 2 ^ 64
    → multi_bench (iface ∷ rest) arg w ≡ in_turn iface rest arg w
unfolding multi_bench
multi_bench-in_turn iface rest arg w fits =
    let rounds : (suc (length rest) + 2 ^ 64 - 1) % 2 ^ 64 ≡ length rest = omega arith in
    rw rounds (call_from-in_turn [] iface rest arg w)
