-- ===== src/TopicBench/Line.antt =====
-- The chain of pnode/src/pub.cpp seen as one line of messages between the source and the sink, and
-- what the chain relies on for that: topics that hand their messages out in order.
pub mod Rows
pub mod Moves
pub mod Refinement
pub mod Order
pub mod Drains
use ros2_pubsub_benchmark.Prelude.{
  ℕ, zero, suc, ◌+◌, ◌^◌, ◌≤◌, ◌<◌, ◌≡◌, ◌≢◌, List, [], ◌∷◌, ◌++◌, some, length, ltb, if◌then◌else◌,
}
use ros2_pubsub_benchmark.Prelude.Int.{pos}
use ros2_pubsub_benchmark.Prelude.Bytes.{Bytes}
use ros2_pubsub_benchmark.Effect.{Ending, done, threw, exited, undefined, spinning, M}
use ros2_pubsub_benchmark.ThriftBench.Sink.{SinkHandler, new_sink, num_relays}
use ros2_pubsub_benchmark.TopicBench.{Message, Topics}
use ros2_pubsub_benchmark.TopicBench.Nodes.{Graph, topic_name, source_message, sink_listen}

-- get_qos: KeepLast(10).
abbrev pub history_depth : ℕ
history_depth = 10

-- A reliable topic, or the queue of a service, that keeps its last messages: they wait in the order
-- of their publication, and when as many wait as it keeps, the oldest makes room for a new one. A
-- message may be late.
pub record FifoLaws (m : Topics) : Type 0 where
  pub waiting : Bytes → m.State → List Message
  pub start_waiting : (topic : Bytes) → waiting topic m.start ≡ []
  pub publish_room :
      (topic : Bytes) (x : Message) (s : m.State)
      → length (waiting topic s) < history_depth
      → waiting topic (m.publish topic x s) ≡ waiting topic s ++ x ∷ []
  pub publish_full :
      (topic : Bytes) (x y : Message) (ys : List Message) (s : m.State)
      → waiting topic s ≡ y ∷ ys
      → history_depth ≤ length (y ∷ ys)
      → waiting topic (m.publish topic x s) ≡ ys ++ x ∷ []
  pub publish_others :
      (topic other : Bytes) (x : Message) (s : m.State)
      → other ≢ topic
      → waiting other (m.publish topic x s) ≡ waiting other s
  pub take_waiting :
      (topic : Bytes) (x : Message) (s s' : m.State)
      → m.take topic s ≡ some (x, s')
      → waiting topic s ≡ x ∷ waiting topic s'
  pub take_others :
      (topic other : Bytes) (x : Message) (s s' : m.State)
      → m.take topic s ≡ some (x, s')
      → other ≢ topic
      → waiting other s' ≡ waiting other s

-- The specification: the source puts messages at the end of a line, the sink takes them from its
-- front.
pub record Line : Type 0 where
  pub under_way : List Message
  pub msgid : ℕ
  pub sink : SinkHandler
  pub clock : ℕ

abbrev pub new_line : Line
new_line = record { under_way = []; msgid = 0; sink = new_sink; clock = 0 }

unfoldable pub line_publish : M Line (Unit {0})
line_publish l =
    if ltb (suc l.msgid) (2 ^ 63)
    then done tt (record l {
      msgid = suc l.msgid;
      under_way = l.under_way ++ source_message (suc l.msgid) (pos l.clock) ∷ [];
    })
    else undefined l

abbrev pub in_line : {A : Type 0} → Line → Ending SinkHandler A → Ending Line A
in_line l (done a h) = done a (record l { sink = h })
in_line l (threw e h) = threw e (record l { sink = h })
in_line l (exited h) = exited (record l { sink = h })
in_line l (undefined h) = undefined (record l { sink = h })
in_line l (spinning h) = spinning (record l { sink = h })

unfoldable pub line_receive : M Line (Unit {0})
line_receive l = elim l.under_way [
  | [] ↦ done tt l
  | x ∷ rest ↦ in_line (record l { under_way = rest }) (sink_listen (pos l.clock) x l.sink)
]

-- A message may be lost while as many are under way as a topic keeps.
pub data LineStep : Line → Line → Type 0 where
  tick :
      (l : Line) (later : ℕ)
      → l.clock ≤ later
      → later < 2 ^ 63
      → LineStep l (record l { clock = later })
  published : (l l' : Line) → line_publish l ≡ done tt l' → LineStep l l'
  lost :
      (l : Line) (before behind : List Message) (x : Message)
      → l.under_way ≡ before ++ x ∷ behind
      → history_depth ≤ length l.under_way
      → LineStep l (record l { under_way = before ++ behind })
  received : (l l' : Line) → line_receive l ≡ done tt l' → LineStep l l'

pub data LineReaches : Line → Type 0 where
  started : LineReaches new_line
  after : (l l' : Line) → LineReaches l → LineStep l l' → LineReaches l'

-- The rows of the topics 0, …, n - 1, the last topic first.
abbrev pub row : ℕ → (ℕ → List Message) → List Message
row zero w = []
row (suc n) w = w n ++ row n w

module _ (m : Topics) (k : FifoLaws m) where
  abbrev pub waiting_at : m.State → ℕ → List Message
  waiting_at s i = k.waiting (topic_name i) s

  abbrev pub line_of : Graph m → Line
  line_of g = record {
    under_way = row (suc num_relays) (waiting_at g.topics);
    msgid = g.msgid;
    sink = g.sink;
    clock = g.clock;
  }
