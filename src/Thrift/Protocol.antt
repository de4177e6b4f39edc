-- ===== src/Thrift/Protocol.antt =====
-- What the generated code calls of Apache Thrift, a library outside the repository: TProtocol with
-- its transport, as a parameter. `Laws` states what the code relies on; it describes
-- TBinaryProtocol over a buffered transport, which thrift-bench/bench.cpp chooses.
pub mod Rules
pub mod Wire
pub mod Machine
use ros2_pubsub_benchmark.Prelude.{ℕ, suc, ◌+◌, ◌≤◌, ◌<◌, ◌≡◌, List, [], ◌∷◌, ◌++◌}
use ros2_pubsub_benchmark.Prelude.Int.{ℤ, pos}
use ros2_pubsub_benchmark.Prelude.Bytes.{Bytes}
use ros2_pubsub_benchmark.Effect.{Exception, M}
use Wire.{TType, MessageType, Token, Value, View, value_tokens, type_of, height, weigh, put}
use Rules.{Runs}

-- Reads return the number of bytes read, then what C++ assigns through references; writes return
-- the number of bytes written.
pub record Protocol : Type 1 where
  pub State : Type 0
  pub enter_input : M State (Unit {0})
  pub leave_input : State → State
  pub enter_output : M State (Unit {0})
  pub leave_output : State → State
  pub read_struct_begin : M State ℕ
  pub read_struct_end : M State ℕ
  pub read_field_begin : M State (ℕ × TType × ℤ)
  pub read_field_end : M State ℕ
  pub read_i64 : M State (ℕ × ℤ)
  pub read_string : M State (ℕ × Bytes)
  pub skip : TType → M State ℕ
  pub read_message_begin : M State (Bytes × MessageType × ℤ)
  pub read_message_end : M State ℕ
  pub transport_read_end : M State ℕ
  pub write_struct_begin : Bytes → M State ℕ
  pub write_struct_end : M State ℕ
  pub write_field_begin : Bytes → TType → ℤ → M State ℕ
  pub write_field_end : M State ℕ
  pub write_field_stop : M State ℕ
  pub write_i64 : ℤ → M State ℕ
  pub write_string : Bytes → M State ℕ
  pub write_message_begin : Bytes → MessageType → ℤ → M State ℕ
  pub write_message_end : M State ℕ
  pub transport_write_end : M State ℕ
  pub transport_flush : M State (Unit {0})
  -- TApplicationException::read and ::write.
  pub read_exception : M State Exception
  pub write_exception : Exception → M State ℕ

module _ (p : Protocol) where
  open p use {
    State, enter_input, leave_input, enter_output, leave_output, read_struct_begin, read_struct_end,
    read_field_begin, read_field_end, read_i64, read_string, skip, read_message_begin,
    read_message_end, transport_read_end, write_struct_begin, write_struct_end, write_field_begin,
    write_field_end, write_field_stop, write_i64, write_string, write_message_begin,
    write_message_end, transport_write_end, transport_flush, read_exception, write_exception,
  }

  -- The largest nesting that a protocol allows, the size of each token in bytes, and what a state
  -- looks like through its operations.
  pub record Laws : Type 0 where
    pub view : State → View
    pub size : Token → ℕ
    pub limit : ℕ
    pub enter_input_runs :
        (v : View)
        → v.input_depth < limit
        → Runs view enter_input v tt (record v { input_depth = suc v.input_depth })
    pub leave_input_view :
        (s : State) (v : View) (d : ℕ)
        → view s ≡ record v { input_depth = suc d }
        → view (leave_input s) ≡ record v { input_depth = d }
    pub enter_output_runs :
        (v : View)
        → v.output_depth < limit
        → Runs view enter_output v tt (record v { output_depth = suc v.output_depth })
    pub leave_output_view :
        (s : State) (v : View) (d : ℕ)
        → view s ≡ record v { output_depth = suc d }
        → view (leave_output s) ≡ record v { output_depth = d }
    pub read_struct_begin_runs : (v : View) → Runs view read_struct_begin v 0 v
    pub read_struct_end_runs : (v : View) → Runs view read_struct_end v 0 v
    pub read_field_begin_runs :
        (v : View) (t : TType) (id : ℤ) (ts : List Token)
        → Runs view read_field_begin
            (record v { incoming = Token.field t id ∷ ts })
            (weigh size (Token.field t id ∷ []), t, id)
            (record v { incoming = ts })
    pub read_field_stop_runs :
        (v : View) (ts : List Token)
        → Runs view read_field_begin
            (record v { incoming = Token.stop ∷ ts })
            (weigh size (Token.stop ∷ []), TType.stop, pos 0)
            (record v { incoming = ts })
    pub read_field_end_runs : (v : View) → Runs view read_field_end v 0 v
    pub read_i64_runs :
        (v : View) (x : ℤ) (ts : List Token)
        → Runs view read_i64
            (record v { incoming = Token.i64 x ∷ ts })
            (weigh size (Token.i64 x ∷ []), x)
            (record v { incoming = ts })
    pub read_string_runs :
        (v : View) (b : Bytes) (ts : List Token)
        → Runs view read_string
            (record v { incoming = Token.text b ∷ ts })
            (weigh size (Token.text b ∷ []), b)
            (record v { incoming = ts })
    pub skip_runs :
        (v : View) (val : Value) (ts : List Token)
        → v.input_depth + height val ≤ limit
        → Runs view
            (skip (type_of val))
            (record v { incoming = value_tokens val ++ ts })
            (weigh size (value_tokens val))
            (record v { incoming = ts })
    pub read_message_begin_runs :
        (v : View) (name : Bytes) (kind : MessageType) (seqid : ℤ) (ts : List Token)
        → Runs view read_message_begin
            (record v { incoming = Token.message name kind seqid ∷ ts })
            (name, kind, seqid)
            (record v { incoming = ts })
    pub read_message_end_runs : (v : View) → Runs view read_message_end v 0 v
    pub transport_read_end_runs : (v : View) → (n : ℕ) × Runs view transport_read_end v n v
    pub write_struct_begin_runs :
        (v : View) (name : Bytes) → Runs view (write_struct_begin name) v 0 v
    pub write_struct_end_runs : (v : View) → Runs view write_struct_end v 0 v
    pub write_field_begin_runs :
        (v : View) (name : Bytes) (t : TType) (id : ℤ)
        → Runs view
            (write_field_begin name t id)
            v
            (weigh size (Token.field t id ∷ []))
            (put v (Token.field t id))
    pub write_field_end_runs : (v : View) → Runs view write_field_end v 0 v
    pub write_field_stop_runs :
        (v : View) → Runs view write_field_stop v (weigh size (Token.stop ∷ [])) (put v Token.stop)
    pub write_i64_runs :
        (v : View) (x : ℤ)
        → Runs view (write_i64 x) v (weigh size (Token.i64 x ∷ [])) (put v (Token.i64 x))
    pub write_string_runs :
        (v : View) (b : Bytes)
        → Runs view (write_string b) v (weigh size (Token.text b ∷ [])) (put v (Token.text b))
    pub write_message_begin_runs :
        (v : View) (name : Bytes) (kind : MessageType) (seqid : ℤ)
        → Runs view
            (write_message_begin name kind seqid)
            v
            (weigh size (Token.message name kind seqid ∷ []))
            (put v (Token.message name kind seqid))
    pub write_message_end_runs : (v : View) → Runs view write_message_end v 0 v
    pub transport_write_end_runs : (v : View) → (n : ℕ) × Runs view transport_write_end v n v
    pub transport_flush_runs :
        (v : View)
        → Runs view transport_flush v tt (record v { outgoing = []; sent = v.sent ++ v.outgoing })
    pub read_exception_runs :
        (v : View) (e : Exception) (ts : List Token)
        → Runs view read_exception
            (record v { incoming = Token.fault e ∷ ts })
            e
            (record v { incoming = ts })
    pub write_exception_runs :
        (v : View) (e : Exception)
        → Runs view (write_exception e) v (weigh size (Token.fault e ∷ [])) (put v (Token.fault e))
