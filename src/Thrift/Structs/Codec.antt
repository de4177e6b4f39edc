-- ===== src/Thrift/Structs/Codec.antt =====
-- The reads of the argument and result structs.
use ros2_pubsub_benchmark.Prelude.{ℕ, suc, ◌+◌, ◌≤◌, ◌<◌, List, ◌++◌, true, some, if◌then◌else◌}
use ros2_pubsub_benchmark.Prelude.Int.{ℤ, eq_ℤ}
use ros2_pubsub_benchmark.Thrift.Protocol.{Protocol, Laws}
use ros2_pubsub_benchmark.Thrift.Protocol.Rules.{Runs, Runs-bind, Runs-pure, Runs-if, Runs-either}
use ros2_pubsub_benchmark.Thrift.Protocol.Wire.{
  Token, Value, Fields, View, fields_tokens, fields_height, fields_width, weigh,
}
use ros2_pubsub_benchmark.Thrift.Fields.Loop.{Stores, store_all, struct_read-Runs, skip_field-Runs}
use ros2_pubsub_benchmark.Thrift.Timing.Codec.{store_timing, timing_read-Runs}
use ros2_pubsub_benchmark.Thrift.Structs.{
  Args, Result, Presult, args_field, args_read, result_field, result_read, presult_field,
  presult_read,
}

-- What a field of the wire means to each struct.
abbrev pub store_args : ℤ → Value → Args → Args
store_args id (Value.struct fs) a =
    if eq_ℤ id 1 then record { arg = store_all store_timing fs a.arg; isset = true } else a
store_args id (Value.i64 x) a = a
store_args id (Value.text b) a = a
store_args id (Value.raw code x) a = a

abbrev pub store_result : ℤ → Value → Result → Result
store_result id (Value.i64 x) a = if eq_ℤ id 0 then record { success = x; isset = true } else a
store_result id (Value.text b) a = a
store_result id (Value.raw code x) a = a
store_result id (Value.struct fs) a = a

abbrev pub store_presult : ℤ → Value → Presult → Presult
store_presult id (Value.i64 x) a =
    if eq_ℤ id 0 then record { success = some x; isset = true } else a
store_presult id (Value.text b) a = a
store_presult id (Value.raw code x) a = a
store_presult id (Value.struct fs) a = a

module _ (p : Protocol) (l : Laws p) where
  open p use {State}
  open l use {
    view, size, limit, read_i64_runs, write_struct_begin_runs, write_struct_end_runs,
    write_field_begin_runs, write_field_end_runs, write_field_stop_runs, write_i64_runs,
  }

  args_field-Runs : (fuel : ℕ) → Stores p l fuel (args_field p fuel) store_args
  unfolding args_field
  args_field-Runs fuel v a id (Value.struct fs) ts enough fits =
      Runs-if (eq_ℤ id 1)
        (Runs-bind _ (timing_read-Runs p l fs fuel ts v a.arg enough fits) (Runs-pure _ _))
        (skip_field-Runs p l v a (Value.struct fs) ts fits)
  args_field-Runs fuel v a id (Value.i64 x) ts enough fits =
      Runs-either (eq_ℤ id 1) (skip_field-Runs p l v a (Value.i64 x) ts fits)
  args_field-Runs fuel v a id (Value.text b) ts enough fits =
      Runs-either (eq_ℤ id 1) (skip_field-Runs p l v a (Value.text b) ts fits)
  args_field-Runs fuel v a id (Value.raw code x) ts enough fits =
      Runs-either (eq_ℤ id 1) (skip_field-Runs p l v a (Value.raw code x) ts fits)

  -- For every list of fields, if no struct in it has as many fields as there is fuel and its
  -- nesting fits, Bench_bench_args::read takes the struct off the wire to its end, returns the
  -- number of its bytes modulo 2 ^ 32, reads each struct of number 1 into the timing, and skips
  -- every other field.
  pub args_read-Runs :
      (fs : Fields) (fuel : ℕ) (ts : List Token) (v : View) (a : Args)
      → fields_width fs < fuel
      → v.input_depth + suc (fields_height fs) ≤ limit
      → Runs view
          (args_read p fuel a)
          (record v { incoming = fields_tokens fs ++ ts })
          (weigh size (fields_tokens fs), store_all store_args fs a)
          (record v { incoming = ts })
  unfolding args_read
  args_read-Runs fs fuel ts v a enough fits =
      struct_read-Runs p l fuel (args_field p fuel) store_args (args_field-Runs fuel) fs ts v a
        enough fits

  presult_field-Runs : (fuel : ℕ) → Stores p l fuel (presult_field p) store_presult
  unfolding presult_field
  presult_field-Runs fuel v a id (Value.i64 x) ts enough fits =
      Runs-if (eq_ℤ id 0) (Runs-bind _ (read_i64_runs v x ts) (Runs-pure _ _))
        (skip_field-Runs p l v a (Value.i64 x) ts fits)
  presult_field-Runs fuel v a id (Value.struct fs) ts enough fits =
      Runs-either (eq_ℤ id 0) (skip_field-Runs p l v a (Value.struct fs) ts fits)
  presult_field-Runs fuel v a id (Value.text b) ts enough fits =
      Runs-either (eq_ℤ id 0) (skip_field-Runs p l v a (Value.text b) ts fits)
  presult_field-Runs fuel v a id (Value.raw code x) ts enough fits =
      Runs-either (eq_ℤ id 0) (skip_field-Runs p l v a (Value.raw code x) ts fits)

  -- For every list of fields, if no struct in it has as many fields as there is fuel and its
  -- nesting fits, Bench_bench_presult::read takes the struct off the wire to its end, returns the
  -- number of its bytes modulo 2 ^ 32, assigns through the pointer for each i64 of number 0, and
  -- skips every other field.
  pub presult_read-Runs :
      (fs : Fields) (fuel : ℕ) (ts : List Token) (v : View) (a : Presult)
      → fields_width fs < fuel
      → v.input_depth + suc (fields_height fs) ≤ limit
      → Runs view
          (presult_read p fuel a)
          (record v { incoming = fields_tokens fs ++ ts })
          (weigh size (fields_tokens fs), store_all store_presult fs a)
          (record v { incoming = ts })
  unfolding presult_read
  presult_read-Runs fs fuel ts v a enough fits =
      struct_read-Runs p l fuel (presult_field p) store_presult (presult_field-Runs fuel) fs ts v a
        enough fits

  result_field-Runs : (fuel : ℕ) → Stores p l fuel (result_field p) store_result
  unfolding result_field
  result_field-Runs fuel v a id (Value.i64 x) ts enough fits =
      Runs-if (eq_ℤ id 0) (Runs-bind _ (read_i64_runs v x ts) (Runs-pure _ _))
        (skip_field-Runs p l v a (Value.i64 x) ts fits)
  result_field-Runs fuel v a id (Value.struct fs) ts enough fits =
      Runs-either (eq_ℤ id 0) (skip_field-Runs p l v a (Value.struct fs) ts fits)
  result_field-Runs fuel v a id (Value.text b) ts enough fits =
      Runs-either (eq_ℤ id 0) (skip_field-Runs p l v a (Value.text b) ts fits)
  result_field-Runs fuel v a id (Value.raw code x) ts enough fits =
      Runs-either (eq_ℤ id 0) (skip_field-Runs p l v a (Value.raw code x) ts fits)

  pub result_read-Runs :
      (fs : Fields) (fuel : ℕ) (ts : List Token) (v : View) (a : Result)
      → fields_width fs < fuel
      → v.input_depth + suc (fields_height fs) ≤ limit
      → Runs view
          (result_read p fuel a)
          (record v { incoming = fields_tokens fs ++ ts })
          (weigh size (fields_tokens fs), store_all store_result fs a)
          (record v { incoming = ts })
  unfolding result_read
  result_read-Runs fs fuel ts v a enough fits =
      struct_read-Runs p l fuel (result_field p) store_result (result_field-Runs fuel) fs ts v a
        enough fits
