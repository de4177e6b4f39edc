-- ===== src/Thrift/Protocol/Machine.antt =====
-- A protocol that works on tokens, for concrete runs.
use ros2_pubsub_benchmark.Prelude.{
  ℕ, zero, suc, ◌+◌, ◌<◌, ◌≡◌, refl, ap, ◌∙◌, List, [], ◌∷◌, ◌++◌, append_assoc, Option, none, some,
  arith, length, ltb, if◌then◌else◌,
}
use ros2_pubsub_benchmark.Prelude.Int.{ℤ, pos}
use ros2_pubsub_benchmark.Prelude.Bytes.{Bytes}
use ros2_pubsub_benchmark.Effect.{Exception, protocol, done, threw, M}
use ros2_pubsub_benchmark.Thrift.Protocol.{Protocol, Laws}
use ros2_pubsub_benchmark.Thrift.Protocol.Rules.{Runs}
use ros2_pubsub_benchmark.Thrift.Protocol.Wire.{
  TType, MessageType, Token, Value, Fields, end, field, View, value_tokens, fields_tokens, type_of,
  put, weigh,
}

-- The bytes of a token in the binary protocol; an exception counts as its type alone.
abbrev token_size : Token → ℕ
token_size (Token.field t id) = 3
token_size Token.stop = 1
token_size (Token.i64 x) = 8
token_size (Token.text b) = 4 + length b
token_size (Token.raw code x) = 4
token_size (Token.message name kind seqid) = 12 + length name
token_size (Token.fault e) = 8

-- TProtocolException::INVALID_DATA and DEPTH_LIMIT.
abbrev invalid : {A : Type 0} → M View A
invalid v = threw (protocol 1) v

abbrev pub depth_limit : ℕ
depth_limit = 64

-- The read of one token; `accept` says what it yields.
abbrev pub take_token : {A : Type 0} → (Token → Option A) → List Token → M View A
take_token accept [] v = invalid v
take_token accept (t ∷ ts) v = elim (accept t) [
  | some a ↦ done a (record v { incoming = ts })
  | none ↦ invalid v
]

abbrev weight : Token → ℕ
weight t = weigh token_size (t ∷ [])

abbrev pub accept_field : Token → Option (ℕ × TType × ℤ)
accept_field (Token.field t id) = some (weight (Token.field t id), t, id)
accept_field Token.stop = some (weight Token.stop, TType.stop, pos 0)
accept_field _ = none

abbrev pub accept_i64 : Token → Option (ℕ × ℤ)
accept_i64 (Token.i64 x) = some (weight (Token.i64 x), x)
accept_i64 _ = none

abbrev pub accept_text : Token → Option (ℕ × Bytes)
accept_text (Token.text b) = some (weight (Token.text b), b)
accept_text _ = none

abbrev pub accept_message : Token → Option (Bytes × MessageType × ℤ)
accept_message (Token.message name kind seqid) = some (name, kind, seqid)
accept_message _ = none

abbrev pub accept_fault : Token → Option Exception
accept_fault (Token.fault e) = some e
accept_fault _ = none

-- A value that is one token of its type.
abbrev pub accept_scalar : TType → Token → Option ℕ
accept_scalar TType.i64 (Token.i64 x) = some (weight (Token.i64 x))
accept_scalar TType.string (Token.text b) = some (weight (Token.text b))
accept_scalar (TType.other c) (Token.raw code x) = some (weight (Token.raw code x))
accept_scalar _ _ = none

-- The tokens up to the stop that closes `open` structs more, and what follows it.
abbrev pub drop_struct : ℕ → List Token → List Token → Option (List Token × List Token)
drop_struct nested past [] = none
drop_struct nested past (Token.field TType.struct id ∷ ts) =
    drop_struct (suc nested) (past ++ Token.field TType.struct id ∷ []) ts
drop_struct zero past (Token.stop ∷ ts) = some (past ++ Token.stop ∷ [], ts)
drop_struct (suc nested) past (Token.stop ∷ ts) = drop_struct nested (past ++ Token.stop ∷ []) ts
drop_struct nested past (t ∷ ts) = drop_struct nested (past ++ t ∷ []) ts

abbrev closed : ℕ → List Token → List Token → Option (List Token × List Token)
closed zero past ts = some (past, ts)
closed (suc nested) past ts = drop_struct nested past ts

drop_struct-fields :
    (fs : Fields) (nested : ℕ) (past ts : List Token)
    → drop_struct nested past (fields_tokens fs ++ ts) ≡ closed nested (past ++ fields_tokens fs) ts
drop_struct-fields end zero past ts = refl
drop_struct-fields end (suc nested) past ts = refl
drop_struct-fields (field id (Value.i64 x) fs) nested past ts =
    drop_struct-fields fs nested _ ts ∙ simp append_assoc
drop_struct-fields (field id (Value.text b) fs) nested past ts =
    drop_struct-fields fs nested _ ts ∙ simp append_assoc
drop_struct-fields (field id (Value.raw code x) fs) nested past ts =
    drop_struct-fields fs nested _ ts ∙ simp append_assoc
drop_struct-fields (field id (Value.struct gs) fs) nested past ts = rw append_assoc (
    drop_struct-fields gs (suc nested) _ (fields_tokens fs ++ ts)
    ∙ drop_struct-fields fs nested _ ts
    ∙ simp append_assoc)

abbrev pub skip_struct : M View ℕ
skip_struct v = elim (drop_struct 0 [] v.incoming) [
  | some (past, ts) ↦ done (weigh token_size past) (record v { incoming = ts })
  | none ↦ invalid v
]

abbrev pub skip_value : TType → M View ℕ
skip_value TType.struct v = skip_struct v
skip_value t v = take_token (accept_scalar t) v.incoming v

abbrev emit : Token → M View ℕ
emit t v = done (weight t) (put v t)

abbrev outward : ℕ → ℕ
outward zero = 0
outward (suc d) = d

abbrev pub token_machine : Protocol
token_machine = record {
  State = View;
  enter_input = λ v.
      if ltb v.input_depth depth_limit
      then done tt (record v { input_depth = suc v.input_depth })
      else threw (protocol 6) v;
  leave_input = λ v. record v { input_depth = outward v.input_depth };
  enter_output = λ v.
      if ltb v.output_depth depth_limit
      then done tt (record v { output_depth = suc v.output_depth })
      else threw (protocol 6) v;
  leave_output = λ v. record v { output_depth = outward v.output_depth };
  read_struct_begin = λ v. done 0 v;
  read_struct_end = λ v. done 0 v;
  read_field_begin = λ v. take_token accept_field v.incoming v;
  read_field_end = λ v. done 0 v;
  read_i64 = λ v. take_token accept_i64 v.incoming v;
  read_string = λ v. take_token accept_text v.incoming v;
  skip = skip_value;
  read_message_begin = λ v. take_token accept_message v.incoming v;
  read_message_end = λ v. done 0 v;
  transport_read_end = λ v. done 0 v;
  write_struct_begin = λ _ v. done 0 v;
  write_struct_end = λ v. done 0 v;
  write_field_begin = λ _ t id. emit (Token.field t id);
  write_field_end = λ v. done 0 v;
  write_field_stop = emit Token.stop;
  write_i64 = λ x. emit (Token.i64 x);
  write_string = λ b. emit (Token.text b);
  write_message_begin = λ name kind seqid. emit (Token.message name kind seqid);
  write_message_end = λ v. done 0 v;
  transport_write_end = λ v. done 0 v;
  transport_flush = λ v. done tt (record v { outgoing = []; sent = v.sent ++ v.outgoing });
  read_exception = λ v. take_token accept_fault v.incoming v;
  write_exception = λ e. emit (Token.fault e);
}

-- A step that the machine makes.
pub moves :
    {A : Type 0} (m : M View A) (v w : View) {a : A}
    → m v ≡ done a w
    → Runs (λ (s : View). s) m v a w
moves m v w e = record { run = λ s h. (w, ap m h ∙ e, refl) }

pub skip_moves :
    (v : View) (val : Value) (ts : List Token)
    → skip_value (type_of val) (record v { incoming = value_tokens val ++ ts })
      ≡ done (weigh token_size (value_tokens val)) (record v { incoming = ts })
skip_moves v (Value.i64 x) ts = refl
skip_moves v (Value.text b) ts = refl
skip_moves v (Value.raw code x) ts = refl
skip_moves v (Value.struct fs) ts = rw (drop_struct-fields fs 0 [] ts, skip_struct) refl

pub enter_input-below :
    (v : View)
    → v.input_depth < depth_limit
    → token_machine.enter_input v ≡ done tt (record v { input_depth = suc v.input_depth })
enter_input-below v h = ground arith

pub enter_output-below :
    (v : View)
    → v.output_depth < depth_limit
    → token_machine.enter_output v ≡ done tt (record v { output_depth = suc v.output_depth })
enter_output-below v h = ground arith

abbrev pub token_machine-Laws : Laws token_machine
token_machine-Laws = record {
  view = λ v. v;
  size = token_size;
  limit = depth_limit;
  enter_input_runs = λ v h. moves _ _ _ (enter_input-below v h);
  leave_input_view = λ s v d h. rw h refl;
  enter_output_runs = λ v h. moves _ _ _ (enter_output-below v h);
  leave_output_view = λ s v d h. rw h refl;
  read_struct_begin_runs = λ v. moves _ _ _ refl;
  read_struct_end_runs = λ v. moves _ _ _ refl;
  read_field_begin_runs = λ v t id ts. moves _ _ _ refl;
  read_field_stop_runs = λ v ts. moves _ _ _ refl;
  read_field_end_runs = λ v. moves _ _ _ refl;
  read_i64_runs = λ v x ts. moves _ _ _ refl;
  read_string_runs = λ v b ts. moves _ _ _ refl;
  skip_runs = λ v val ts _. moves _ _ _ (skip_moves v val ts);
  read_message_begin_runs = λ v name kind seqid ts. moves _ _ _ refl;
  read_message_end_runs = λ v. moves _ _ _ refl;
  transport_read_end_runs = λ v. (0, moves _ _ _ refl);
  write_struct_begin_runs = λ v name. moves _ _ _ refl;
  write_struct_end_runs = λ v. moves _ _ _ refl;
  write_field_begin_runs = λ v name t id. moves _ _ _ refl;
  write_field_end_runs = λ v. moves _ _ _ refl;
  write_field_stop_runs = λ v. moves _ _ _ refl;
  write_i64_runs = λ v x. moves _ _ _ refl;
  write_string_runs = λ v b. moves _ _ _ refl;
  write_message_begin_runs = λ v name kind seqid. moves _ _ _ refl;
  write_message_end_runs = λ v. moves _ _ _ refl;
  transport_write_end_runs = λ v. (0, moves _ _ _ refl);
  transport_flush_runs = λ v. moves _ _ _ refl;
  read_exception_runs = λ v e ts. moves _ _ _ refl;
  write_exception_runs = λ v e. moves _ _ _ refl;
}
