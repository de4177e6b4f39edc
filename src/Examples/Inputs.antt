-- ===== src/Examples/Inputs.antt =====
-- How the protocol of tokens uses its input up.
use ros2_pubsub_benchmark.Prelude.{
  ℕ, zero, suc, ◌≤◌, ◌≡◌, List, [], ◌∷◌, Option, some, none, inl, inr, length, ltb, Bool-cases,
  Option-cases, arith,
}
use ros2_pubsub_benchmark.Prelude.Int.{pos}
use ros2_pubsub_benchmark.Prelude.Bytes.{bytes}
use ros2_pubsub_benchmark.Effect.{protocol}
use ros2_pubsub_benchmark.Thrift.Protocol.Wire.{TType, Token, View}
use ros2_pubsub_benchmark.Thrift.Protocol.Machine.{
  token_machine, take_token, skip_struct, skip_value, drop_struct, depth_limit, accept_field,
  accept_i64, accept_text, accept_scalar, accept_message, accept_fault,
}
use ros2_pubsub_benchmark.Thrift.Settled.{Settled, by_return, by_throw, Uses, Settled-weaken, Ends}
use ros2_pubsub_benchmark.Thrift.Fields.Ends.{Consumes}
use ros2_pubsub_benchmark.Thrift.Timing.{Timing, new_timing}
use ros2_pubsub_benchmark.Thrift.Client.{client_bench}
use ros2_pubsub_benchmark.Thrift.Client.Ends.{Answers, client_bench-Ends}
use ros2_pubsub_benchmark.Thrift.Processor.{dispatch_call}
use ros2_pubsub_benchmark.Thrift.Processor.Ends.{Comes, dispatch_call-Ends}
use ros2_pubsub_benchmark.Thrift.Multiface.{null_bench}
use ros2_pubsub_benchmark.Examples.{text_of}

abbrev left : View → ℕ
left v = length v.incoming

take_token-Settled :
    {A : Type 0} (accept : Token → Option A) (ts : List Token) (v : View) (b : ℕ)
    → length ts ≤ b
    → Settled ⊥ (λ _ s. suc (left s) ≤ b) (take_token accept ts v)
take_token-Settled accept [] v b h = by_throw (protocol 1) v
take_token-Settled accept (t ∷ ts) v b h = elim (Option-cases (accept t)) [
  | inl e ↦ rw (e, take_token) (by_throw (protocol 1) v)
  | inr (a, e) ↦ rw (e, take_token) (by_return a (record v { incoming = ts }) h)
]

take_token-Uses :
    {A : Type 0} (accept : Token → Option A) → Uses left (λ v. take_token accept v.incoming v)
take_token-Uses accept v =
    Settled-weaken (λ x. x) (λ a s h. omega arith)
      (take_token-Settled accept v.incoming v (left v) (omega arith))

drop_struct-length :
    (ts : List Token) (nested : ℕ) (past past' ts' : List Token)
    → drop_struct nested past ts ≡ some (past', ts')
    → length ts' ≤ length ts
drop_struct-length [] nested past past' ts' e = absurd (cc (e))
drop_struct-length (Token.field TType.struct id ∷ ts) nested past past' ts' e =
    let h = drop_struct-length ts (suc nested) _ past' ts' e in omega (arith, h)
drop_struct-length (Token.field TType.stop id ∷ ts) nested past past' ts' e =
    let h = drop_struct-length ts nested _ past' ts' e in omega (arith, h)
drop_struct-length (Token.field TType.i64 id ∷ ts) nested past past' ts' e =
    let h = drop_struct-length ts nested _ past' ts' e in omega (arith, h)
drop_struct-length (Token.field TType.string id ∷ ts) nested past past' ts' e =
    let h = drop_struct-length ts nested _ past' ts' e in omega (arith, h)
drop_struct-length (Token.field (TType.other k) id ∷ ts) nested past past' ts' e =
    let h = drop_struct-length ts nested _ past' ts' e in omega (arith, h)
drop_struct-length (Token.stop ∷ ts) zero past past' ts' e =
    let same : ts ≡ ts' = cc (e) in rw (← same) (omega arith)
drop_struct-length (Token.stop ∷ ts) (suc nested) past past' ts' e =
    let h = drop_struct-length ts nested _ past' ts' e in omega (arith, h)
drop_struct-length (Token.i64 x ∷ ts) nested past past' ts' e =
    let h = drop_struct-length ts nested _ past' ts' e in omega (arith, h)
drop_struct-length (Token.text x ∷ ts) nested past past' ts' e =
    let h = drop_struct-length ts nested _ past' ts' e in omega (arith, h)
drop_struct-length (Token.raw k x ∷ ts) nested past past' ts' e =
    let h = drop_struct-length ts nested _ past' ts' e in omega (arith, h)
drop_struct-length (Token.message n k i ∷ ts) nested past past' ts' e =
    let h = drop_struct-length ts nested _ past' ts' e in omega (arith, h)
drop_struct-length (Token.fault x ∷ ts) nested past past' ts' e =
    let h = drop_struct-length ts nested _ past' ts' e in omega (arith, h)

skip_struct-Uses : Uses left skip_struct
skip_struct-Uses v = elim (Option-cases (drop_struct 0 [] v.incoming)) [
  | inl e ↦ rw (e, skip_struct) (by_throw (protocol 1) v)
  | inr ((past, ts), e) ↦
      rw (e, skip_struct)
        (by_return _ (record v { incoming = ts }) (drop_struct-length v.incoming 0 [] past ts e))
]

skip_value-Uses : (t : TType) → Uses left (skip_value t)
skip_value-Uses TType.struct v = skip_struct-Uses v
skip_value-Uses TType.stop v = take_token-Uses (accept_scalar TType.stop) v
skip_value-Uses TType.i64 v = take_token-Uses (accept_scalar TType.i64) v
skip_value-Uses TType.string v = take_token-Uses (accept_scalar TType.string) v
skip_value-Uses (TType.other k) v = take_token-Uses (accept_scalar (TType.other k)) v

enter_input-Uses : Uses left token_machine.enter_input
enter_input-Uses v = elim (Bool-cases (ltb v.input_depth depth_limit)) [
  | inl e ↦ rw e (by_return tt (record v { input_depth = suc v.input_depth }) (omega arith))
  | inr e ↦ rw e (by_throw (protocol 6) v)
]

enter_output-Uses : Uses left token_machine.enter_output
enter_output-Uses v = elim (Bool-cases (ltb v.output_depth depth_limit)) [
  | inl e ↦ rw e (by_return tt (record v { output_depth = suc v.output_depth }) (omega arith))
  | inr e ↦ rw e (by_throw (protocol 6) v)
]

token_machine-Consumes : Consumes token_machine
token_machine-Consumes = record {
  remaining = left;
  enter_input_settles = enter_input-Uses;
  leave_input_keeps = λ v. omega arith;
  read_struct_begin_settles = λ v. by_return 0 v (omega arith);
  read_struct_end_settles = λ v. by_return 0 v (omega arith);
  read_field_begin_settles = λ v. take_token-Settled accept_field v.incoming v _ (omega arith);
  read_field_end_settles = λ v. by_return 0 v (omega arith);
  read_i64_settles = take_token-Uses accept_i64;
  read_string_settles = take_token-Uses accept_text;
  skip_settles = skip_value-Uses;
}

token_machine-Answers : Answers token_machine token_machine-Consumes
unfolding token_machine-Consumes
token_machine-Answers = record {
  read_message_begin_settles = take_token-Uses accept_message;
  read_message_end_settles = λ v. by_return _ _ (omega arith);
  transport_read_end_settles = λ v. by_return _ _ (omega arith);
  read_exception_settles = take_token-Uses accept_fault;
  enter_output_settles = enter_output-Uses;
  leave_output_keeps = λ v. omega arith;
  write_struct_begin_settles = λ name v. by_return _ _ (omega arith);
  write_struct_end_settles = λ v. by_return _ _ (omega arith);
  write_field_begin_settles = λ name t id v. by_return _ _ (omega arith);
  write_field_end_settles = λ v. by_return _ _ (omega arith);
  write_field_stop_settles = λ v. by_return _ _ (omega arith);
  write_i64_settles = λ x v. by_return _ _ (omega arith);
  write_string_settles = λ text v. by_return _ _ (omega arith);
  write_message_begin_settles = λ name t seqid v. by_return _ _ (omega arith);
  write_message_end_settles = λ v. by_return _ _ (omega arith);
  transport_write_end_settles = λ v. by_return _ _ (omega arith);
  transport_flush_settles = λ v. by_return _ _ (omega arith);
  write_exception_settles = λ e v. by_return _ _ (omega arith);
}

client_bench-Ends_example :
    Ends left ⊥ 100 (λ _. Unit {0}) (client_bench token_machine 100 new_timing)
unfolding token_machine-Consumes
client_bench-Ends_example =
    client_bench-Ends token_machine token_machine-Consumes token_machine-Answers 100 new_timing

null_bench-Comes : (t : Timing) → Comes {W = Unit {0}} ⊥ (null_bench t)
unfolding null_bench
null_bench-Comes t w = by_return (pos 0) w tt

dispatch_call-Ends_example :
    Ends
      (λ (s : View × Unit {0}). left s.0)
      ⊥
      100
      (λ _. Unit {0})
      (dispatch_call token_machine text_of none null_bench 100 (bytes "bench") (pos 7))
unfolding token_machine-Consumes
dispatch_call-Ends_example =
    dispatch_call-Ends token_machine token_machine-Consumes token_machine-Answers 100 ⊥ text_of none
      null_bench tt null_bench-Comes (bytes "bench") (pos 7)
