-- ===== src/Thrift/Protocol/Wire.antt =====
-- What a protocol carries, one token for each item of the binary encoding that takes bytes, and
-- the tokens of a whole value.
use ros2_pubsub_benchmark.Prelude.{
  ℕ, suc, ◌+◌, ◌%◌, ◌^◌, ◌≡◌, refl, List, [], ◌∷◌, ◌++◌, max, arith,
}
use ros2_pubsub_benchmark.Prelude.Int.{ℤ}
use ros2_pubsub_benchmark.Prelude.Bytes.{Bytes}
use ros2_pubsub_benchmark.Effect.{Exception}

-- The members of TType that the generated code names, and the others by their numbers.
pub data TType : Type 0 where
  stop i64 string struct : TType
  other : ℕ → TType

pub data MessageType : Type 0 where
  call reply exception : MessageType
  other : ℕ → MessageType

pub data Token : Type 0 where
  field : TType → ℤ → Token
  stop : Token
  i64 : ℤ → Token
  text : Bytes → Token
  raw : ℕ → ℕ → Token
  message : Bytes → MessageType → ℤ → Token
  fault : Exception → Token

-- A value on the wire, and the fields of a struct up to its stop.
mutual
  pub data Value : Type 0 where
    i64 : ℤ → Value
    text : Bytes → Value
    raw : ℕ → ℕ → Value
    struct : Fields → Value

  pub data Fields : Type 0 where
    end : Fields
    field : ℤ → Value → Fields → Fields

abbrev pub type_of : Value → TType
type_of (Value.i64 x) = TType.i64
type_of (Value.text b) = TType.string
type_of (Value.raw code x) = TType.other code
type_of (Value.struct fs) = TType.struct

abbrev mutual
  pub value_tokens : Value → List Token
  value_tokens (Value.i64 x) = Token.i64 x ∷ []
  value_tokens (Value.text b) = Token.text b ∷ []
  value_tokens (Value.raw code x) = Token.raw code x ∷ []
  value_tokens (Value.struct fs) = fields_tokens fs

  pub fields_tokens : Fields → List Token
  fields_tokens end = Token.stop ∷ []
  fields_tokens (field id v fs) = Token.field (type_of v) id ∷ (value_tokens v ++ fields_tokens fs)

-- The nesting that a read of the value needs.
abbrev mutual
  pub height : Value → ℕ
  height (Value.i64 x) = 1
  height (Value.text b) = 1
  height (Value.raw code x) = 1
  height (Value.struct fs) = suc (fields_height fs)

  pub fields_height : Fields → ℕ
  fields_height end = 0
  fields_height (field id v fs) = max (height v) (fields_height fs)

-- The rounds of the longest loop that reads the value: at least the number of fields of each struct
-- in it.
abbrev mutual
  pub width : Value → ℕ
  width (Value.i64 x) = 0
  width (Value.text b) = 0
  width (Value.raw code x) = 0
  width (Value.struct fs) = fields_width fs

  pub fields_width : Fields → ℕ
  fields_width end = 0
  fields_width (field id v fs) = max (width v) (suc (fields_width fs))

-- The bytes that tokens take, as the uint32_t counters of the generated code add them up.
module _ (size : Token → ℕ) where
  unfoldable pub total : List Token → ℕ
  total [] = 0
  total (t ∷ ts) = size t + total ts

  unfoldable pub weigh : List Token → ℕ
  weigh ts = total ts % 2 ^ 32

  pub total-append : (ts us : List Token) → total (ts ++ us) ≡ total ts + total us
  unfolding total
  total-append [] us = omega arith
  total-append (t ∷ ts) us = omega (arith, total-append ts us)

-- `xfer += n` on uint32_t.
unfoldable pub add_u32 : ℕ → ℕ → ℕ
add_u32 xfer n = (xfer + n) % 2 ^ 32

-- A counter that starts at 0 and has added the weights of two runs of tokens.
pub add_u32-weigh :
    (size : Token → ℕ) (ts us : List Token)
    → add_u32 (weigh size ts) (weigh size us) ≡ weigh size (ts ++ us)
unfolding add_u32 weigh
add_u32-weigh size ts us = omega (arith, total-append size ts us)

pub add_u32-zero : (size : Token → ℕ) (ts : List Token) → add_u32 (weigh size ts) 0 ≡ weigh size ts
unfolding add_u32 weigh
add_u32-zero size ts = omega arith

-- A counter's additions, from the left.
pub ruleset counters = (add_u32-weigh, add_u32-zero)

-- A fresh counter that has added 0.
pub add_u32-nil : (size : Token → ℕ) → add_u32 0 0 ≡ weigh size []
unfolding add_u32 weigh total
add_u32-nil size = refl

-- A connection as the code sees it: what has come in and is not read, what is written and not
-- flushed, what has been flushed, and how deep the calls that read and write are nested.
pub record View : Type 0 where
  pub incoming : List Token
  pub outgoing : List Token
  pub sent : List Token
  pub input_depth : ℕ
  pub output_depth : ℕ

abbrev pub put : View → Token → View
put v t = record v { outgoing = v.outgoing ++ t ∷ [] }
