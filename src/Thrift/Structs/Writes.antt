-- ===== src/Thrift/Structs/Writes.antt =====
-- The writes of the argument and result structs.
use ros2_pubsub_benchmark.Prelude.{
  suc, ◌<◌, refl, ◌++◌, append_assoc, Bool, true, false, arith, if◌then◌else◌,
}
use ros2_pubsub_benchmark.Prelude.Int.{ℤ, pos}
use ros2_pubsub_benchmark.Thrift.Protocol.{Protocol, Laws}
use ros2_pubsub_benchmark.Thrift.Protocol.Rules.{Runs, Runs-bind, Runs-pure, Runs-eq}
use ros2_pubsub_benchmark.Thrift.Protocol.Wire.{
  Value, Fields, end, field, View, fields_tokens, weigh, add_u32-nil, counters,
}
use ros2_pubsub_benchmark.Thrift.Fields.{add_all}
use ros2_pubsub_benchmark.Thrift.Fields.Loop.{tracked_output-Runs}
use ros2_pubsub_benchmark.Thrift.Timing.{Timing}
use ros2_pubsub_benchmark.Thrift.Timing.Codec.{timing_fields, timing_write-Runs}
use ros2_pubsub_benchmark.Thrift.Structs.{Args, Result, args_write, pargs_write, result_write}

-- The fields that the structs are written as.
abbrev pub args_fields : Timing → Fields
args_fields t = field (pos 1) (Value.struct (timing_fields t)) end

abbrev pub result_fields : Result → Fields
result_fields r = if r.isset then field (pos 0) (Value.i64 r.success) end else end

module _ (p : Protocol) (l : Laws p) where
  open p use {State}
  open l use {
    view, size, limit, read_i64_runs, write_struct_begin_runs, write_struct_end_runs,
    write_field_begin_runs, write_field_end_runs, write_field_stop_runs, write_i64_runs,
  }

  -- If the nesting fits, Bench_bench_pargs::write puts out the timing as the struct of number 1 and
  -- the stop, and returns the number of their bytes modulo 2 ^ 32.
  pub pargs_write-Runs :
      (v : View) (t : Timing)
      → suc v.output_depth < limit
      → Runs view
          (pargs_write p t)
          v
          (weigh size (fields_tokens (args_fields t)))
          (record v { outgoing = v.outgoing ++ fields_tokens (args_fields t) })
  unfolding pargs_write add_all
  pargs_write-Runs v t fits = tracked_output-Runs p l _ _ _ _ (omega arith) refl (
      Runs-eq
        (Runs-bind _ (write_struct_begin_runs _ _) (
          Runs-bind _ (write_field_begin_runs _ _ _ _) (
            Runs-bind _ (timing_write-Runs p l _ t fits) (
              Runs-bind _ (write_field_end_runs _) (
                Runs-bind _ (write_field_stop_runs _)
                  (Runs-bind _ (write_struct_end_runs _) (Runs-pure _ _)))))))
        (simp (add_u32-nil size, counters)) (simp append_assoc))

  pub args_write-Runs :
      (v : View) (a : Args)
      → suc v.output_depth < limit
      → Runs view
          (args_write p a)
          v
          (weigh size (fields_tokens (args_fields a.arg)))
          (record v { outgoing = v.outgoing ++ fields_tokens (args_fields a.arg) })
  unfolding args_write add_all
  args_write-Runs v a fits = tracked_output-Runs p l _ _ _ _ (omega arith) refl (
      Runs-eq
        (Runs-bind _ (write_struct_begin_runs _ _) (
          Runs-bind _ (write_field_begin_runs _ _ _ _) (
            Runs-bind _ (timing_write-Runs p l _ a.arg fits) (
              Runs-bind _ (write_field_end_runs _) (
                Runs-bind _ (write_field_stop_runs _)
                  (Runs-bind _ (write_struct_end_runs _) (Runs-pure _ _)))))))
        (simp (add_u32-nil size, counters)) (simp append_assoc))

  result_write_by :
      (v : View) (x : ℤ) (isset : Bool)
      → let r : Result = record { success = x; isset = isset } in
        Runs view
          (result_write p r)
          v
          (weigh size (fields_tokens (result_fields r)))
          (record v { outgoing = v.outgoing ++ fields_tokens (result_fields r) })
  unfolding result_write add_all
  result_write_by v x true =
      Runs-eq
        (Runs-bind _ (write_struct_begin_runs _ _) (
          Runs-bind _
            (Runs-bind _ (write_field_begin_runs _ _ _ _) (
              Runs-bind _ (write_i64_runs _ _)
                (Runs-bind _ (write_field_end_runs _) (Runs-pure _ _))))
            (Runs-bind _ (write_field_stop_runs _)
              (Runs-bind _ (write_struct_end_runs _) (Runs-pure _ _)))))
        (simp (add_u32-nil size, counters)) (simp append_assoc)
  result_write_by v x false =
      Runs-eq
        (Runs-bind _ (write_struct_begin_runs _ _) (
          Runs-bind _ (write_field_stop_runs _)
            (Runs-bind _ (write_struct_end_runs _) (Runs-pure _ _))))
        (simp (add_u32-nil size, counters)) refl

  -- Bench_bench_result::write puts out the value as the field of number 0 if it is marked as set,
  -- and no field otherwise, then the stop, and returns the number of the bytes modulo 2 ^ 32.
  pub result_write-Runs :
      (v : View) (r : Result)
      → Runs view
          (result_write p r)
          v
          (weigh size (fields_tokens (result_fields r)))
          (record v { outgoing = v.outgoing ++ fields_tokens (result_fields r) })
  result_write-Runs v r = result_write_by v r.success r.isset
