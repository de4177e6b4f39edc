-- ===== src/Thrift/Structs.antt =====
-- The argument and result structs of the service's one method: Bench_bench_args, Bench_bench_pargs,
-- Bench_bench_result and Bench_bench_presult of thrift-bench/gen-cpp/Bench.h and Bench.cpp.
pub mod Codec
pub mod Writes
pub mod Ends
use ros2_pubsub_benchmark.Prelude.{ℕ, [], ◌∷◌, Bool, true, false, Option, none, some, if◌then◌else◌}
use ros2_pubsub_benchmark.Prelude.Int.{ℤ, pos, eq_ℤ}
use ros2_pubsub_benchmark.Prelude.Bytes.{bytes}
use ros2_pubsub_benchmark.Effect.{M, pure, ◌>>=◌}
use ros2_pubsub_benchmark.Thrift.Protocol.{Protocol}
use ros2_pubsub_benchmark.Thrift.Protocol.Wire.{TType, add_u32}
use ros2_pubsub_benchmark.Thrift.Fields.{
  tracked_input, tracked_output, add_all, read_fields, skip_field, is_i64, is_struct,
}
use ros2_pubsub_benchmark.Thrift.Timing.{Timing, new_timing, timing_read, timing_write}

pub record Args : Type 0 where
  pub arg : Timing
  pub isset : Bool

abbrev pub new_args : Args
new_args = record { arg = new_timing; isset = false }

pub record Result : Type 0 where
  pub success : ℤ
  pub isset : Bool

abbrev pub new_result : Result
new_result = record { success = pos 0; isset = false }

-- `success` is what the pointer points at; `none` is a variable that nothing has been assigned to.
pub record Presult : Type 0 where
  pub success : Option ℤ
  pub isset : Bool

abbrev pub new_presult : Presult
new_presult = record { success = none; isset = false }

module _ (p : Protocol) where
  open p use {
    State, read_struct_begin, read_struct_end, read_i64, write_struct_begin, write_struct_end,
    write_field_begin, write_field_end, write_field_stop, write_i64,
  }

  -- The cases of the `switch (fid)` of Bench_bench_args::read.
  unfoldable pub args_field : ℕ → TType → ℤ → Args → M State (ℕ × Args)
  unfolding is_struct
  args_field fuel ftype fid this =
      if eq_ℤ fid 1
      then (if is_struct ftype
          then (timing_read p fuel this.arg >>= λ r. pure (r.0, record { arg = r.1; isset = true }))
          else skip_field p ftype this)
      else skip_field p ftype this

  unfoldable pub args_read : ℕ → Args → M State (ℕ × Args)
  args_read fuel this = tracked_input p do
    n ← read_struct_begin
    r ← read_fields p (args_field fuel) fuel (add_u32 0 n) this
    m ← read_struct_end
    pure (add_u32 r.0 m, r.1)

  unfoldable pub args_write : Args → M State ℕ
  args_write this = tracked_output p do
    n ← write_struct_begin (bytes "Bench_bench_args")
    a1 ← write_field_begin (bytes "arg") TType.struct (pos 1)
    a2 ← timing_write p this.arg
    a3 ← write_field_end
    d1 ← write_field_stop
    d2 ← write_struct_end
    pure (add_all 0 (n ∷ a1 ∷ a2 ∷ a3 ∷ d1 ∷ d2 ∷ []))

  -- Bench_bench_pargs::write: the struct holds a pointer to the caller's timing.
  unfoldable pub pargs_write : Timing → M State ℕ
  pargs_write arg = tracked_output p do
    n ← write_struct_begin (bytes "Bench_bench_pargs")
    a1 ← write_field_begin (bytes "arg") TType.struct (pos 1)
    a2 ← timing_write p arg
    a3 ← write_field_end
    d1 ← write_field_stop
    d2 ← write_struct_end
    pure (add_all 0 (n ∷ a1 ∷ a2 ∷ a3 ∷ d1 ∷ d2 ∷ []))

  unfoldable pub result_field : TType → ℤ → Result → M State (ℕ × Result)
  unfolding is_i64
  result_field ftype fid this =
      if eq_ℤ fid 0
      then (if is_i64 ftype
          then (read_i64 >>= λ r. pure (r.0, record { success = r.1; isset = true }))
          else skip_field p ftype this)
      else skip_field p ftype this

  unfoldable pub result_read : ℕ → Result → M State (ℕ × Result)
  result_read fuel this = tracked_input p do
    n ← read_struct_begin
    r ← read_fields p result_field fuel (add_u32 0 n) this
    m ← read_struct_end
    pure (add_u32 r.0 m, r.1)

  -- Bench_bench_result::write has no recursion tracker.
  unfoldable pub result_write : Result → M State ℕ
  result_write this = do
    n ← write_struct_begin (bytes "Bench_bench_result")
    x ←
        (if this.isset
          then (do
            a1 ← write_field_begin (bytes "success") TType.i64 (pos 0)
            a2 ← write_i64 this.success
            a3 ← write_field_end
            pure (add_all (add_u32 0 n) (a1 ∷ a2 ∷ a3 ∷ [])))
          else pure (add_u32 0 n))
    d1 ← write_field_stop
    d2 ← write_struct_end
    pure (add_all x (d1 ∷ d2 ∷ []))

  unfoldable pub presult_field : TType → ℤ → Presult → M State (ℕ × Presult)
  unfolding is_i64
  presult_field ftype fid this =
      if eq_ℤ fid 0
      then (if is_i64 ftype
          then (read_i64 >>= λ r. pure (r.0, record { success = some r.1; isset = true }))
          else skip_field p ftype this)
      else skip_field p ftype this

  unfoldable pub presult_read : ℕ → Presult → M State (ℕ × Presult)
  presult_read fuel this = tracked_input p do
    n ← read_struct_begin
    r ← read_fields p presult_field fuel (add_u32 0 n) this
    m ← read_struct_end
    pure (add_u32 r.0 m, r.1)
