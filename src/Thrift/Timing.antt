-- ===== src/Thrift/Timing.antt =====
-- struct timing: thrift-bench/gen-cpp/timing_types.h and timing_types.cpp.
pub mod Codec
pub mod Equality
pub mod Printing
use ros2_pubsub_benchmark.Prelude.{ℕ, [], ◌∷◌, Bool, true, false, not, if◌then◌else◌, ◌==◌}
use ros2_pubsub_benchmark.Prelude.Int.{ℤ, pos, negsuc, eq_ℤ}
use ros2_pubsub_benchmark.Prelude.Bytes.{Bytes, bytes, same_bytes}
use ros2_pubsub_benchmark.Effect.{M, pure, ◌>>=◌, ◌>>◌}
use ros2_pubsub_benchmark.Thrift.Protocol.{Protocol}
use ros2_pubsub_benchmark.Thrift.Protocol.Wire.{TType, add_u32}
use ros2_pubsub_benchmark.Thrift.Fields.{
  tracked_input, tracked_output, add_all, read_fields, skip_field, is_i64, is_string,
}

pub record TimingIsset : Type 0 where
  pub msgid : Bool
  pub nanosec : Bool
  pub source : Bool

-- msgid and nanosec are int64_t.
pub record Timing : Type 0 where
  pub msgid : ℤ
  pub nanosec : ℤ
  pub source : Bytes
  pub isset : TimingIsset

abbrev none_set : TimingIsset
none_set = record { msgid = false; nanosec = false; source = false }

-- The default constructor.
abbrev pub new_timing : Timing
new_timing = record { msgid = pos 0; nanosec = pos 0; source = []; isset = none_set }

-- The setters leave the flags as they are.
unfoldable pub set_msgid : ℤ → Timing → Timing
set_msgid val t = record t { msgid = val }

unfoldable pub set_nanosec : ℤ → Timing → Timing
set_nanosec val t = record t { nanosec = val }

unfoldable pub set_source : Bytes → Timing → Timing
set_source val t = record t { source = val }

unfoldable pub eq_int64 : ℤ → ℤ → Bool
eq_int64 (pos m) (pos n) = m == n
eq_int64 (pos m) (negsuc n) = false
eq_int64 (negsuc m) (pos n) = false
eq_int64 (negsuc m) (negsuc n) = m == n

-- operator== compares the three values and no flag.
unfoldable pub timing_eq : Timing → Timing → Bool
unfolding eq_int64 same_bytes
timing_eq t rhs =
    if not (eq_int64 t.msgid rhs.msgid)
    then false
    else if not (eq_int64 t.nanosec rhs.nanosec)
    then false
    else if not (same_bytes t.source rhs.source)
    then false
    else true

-- `swap(a, b)`, field by field: the two objects afterwards.
unfoldable pub swap : Timing → Timing → Timing × Timing
swap a b = (
  record { msgid = b.msgid; nanosec = b.nanosec; source = b.source; isset = b.isset },
  record { msgid = a.msgid; nanosec = a.nanosec; source = a.source; isset = a.isset },
)

-- The copy constructor, and the assignment, which overwrites each member of `this`.
unfoldable pub copy : Timing → Timing
copy other = record {
  msgid = other.msgid;
  nanosec = other.nanosec;
  source = other.source;
  isset = other.isset;
}

unfoldable pub assign : Timing → Timing → Timing
assign this other = record this {
  msgid = other.msgid;
  nanosec = other.nanosec;
  source = other.source;
  isset = other.isset;
}

module _ (p : Protocol) where
  open p use {
    State, enter_input, leave_input, enter_output, leave_output, read_struct_begin, read_struct_end,
    read_i64, read_string, write_struct_begin, write_struct_end, write_field_begin, write_field_end,
    write_field_stop, write_i64, write_string,
  }

  -- The cases of the `switch (fid)` of timing::read.
  unfoldable pub timing_field : TType → ℤ → Timing → M State (ℕ × Timing)
  unfolding skip_field is_i64 is_string
  timing_field ftype fid this =
      if eq_ℤ fid 1
      then (if is_i64 ftype
          then (read_i64 >>= λ r.
              pure (r.0, record this { msgid = r.1; isset = record this.isset { msgid = true } }))
          else skip_field p ftype this)
      else if eq_ℤ fid 2
      then (if is_i64 ftype
          then (read_i64 >>= λ r.
              pure
                (r.0, record this { nanosec = r.1; isset = record this.isset { nanosec = true } }))
          else skip_field p ftype this)
      else if eq_ℤ fid 3
      then (if is_string ftype
          then (read_string >>= λ r.
              pure (r.0, record this { source = r.1; isset = record this.isset { source = true } }))
          else skip_field p ftype this)
      else skip_field p ftype this

  -- timing::read: the number of bytes read, and `this` afterwards. An exception leaves a partly
  -- assigned object, which no caller looks at.
  unfoldable pub timing_read : ℕ → Timing → M State (ℕ × Timing)
  timing_read fuel this = tracked_input p do
    n ← read_struct_begin
    r ← read_fields p timing_field fuel (add_u32 0 n) this
    m ← read_struct_end
    pure (add_u32 r.0 m, r.1)

  -- timing::write.
  unfoldable pub timing_write : Timing → M State ℕ
  timing_write this = tracked_output p do
    n ← write_struct_begin (bytes "timing")
    a1 ← write_field_begin (bytes "msgid") TType.i64 (pos 1)
    a2 ← write_i64 this.msgid
    a3 ← write_field_end
    b1 ← write_field_begin (bytes "nanosec") TType.i64 (pos 2)
    b2 ← write_i64 this.nanosec
    b3 ← write_field_end
    c1 ← write_field_begin (bytes "source") TType.string (pos 3)
    c2 ← write_string this.source
    c3 ← write_field_end
    d1 ← write_field_stop
    d2 ← write_struct_end
    pure (add_all 0 (n ∷ a1 ∷ a2 ∷ a3 ∷ b1 ∷ b2 ∷ b3 ∷ c1 ∷ c2 ∷ c3 ∷ d1 ∷ d2 ∷ []))
