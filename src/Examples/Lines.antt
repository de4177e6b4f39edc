-- ===== src/Examples/Lines.antt =====
-- Topics that keep their last ten messages, and a message on its way from the source.
use ros2_pubsub_benchmark.Prelude.{
  ◌≡◌, ◌≢◌, ◌≤◌, ◌<◌, refl, inl, inr, List, [], ◌∷◌, ◌++◌, Option, none, some, length, ltb,
  Bool-cases, true, false, if◌then◌else◌, suc, arith, ap,
}
use ros2_pubsub_benchmark.Prelude.Bytes.{Bytes, to_string, same_bytes, same_bytes_iff}
use ros2_pubsub_benchmark.Effect.{done, onto}
use ros2_pubsub_benchmark.ThriftBench.Sink.{num_relays}
use ros2_pubsub_benchmark.TopicBench.{Message, Topics}
use ros2_pubsub_benchmark.TopicBench.Nodes.{
  Graph, new_graph, source_publish, relay_turn, sink_turn, relay_listen, topic_name,
}
use ros2_pubsub_benchmark.TopicBench.Steps.{tick, published, relayed, Reaches, started, after}
use ros2_pubsub_benchmark.TopicBench.Line.{
  history_depth, FifoLaws, LineReaches, line_receive, line_of, row, waiting_at,
}
use ros2_pubsub_benchmark.TopicBench.Line.Refinement.{Reaches-refines}
use ros2_pubsub_benchmark.TopicBench.Line.Drains.{Prompt}
use ros2_pubsub_benchmark.TopicBench.Line.Drains.Concludes.{Concludes, Reaches-Concludes}
use ros2_pubsub_benchmark.TopicBench.Line.Order.{InOrder, Reaches-InOrder}

abbrev Shelf : Type 0
Shelf = Bytes → List Message

abbrev put_at : Bytes → List Message → Shelf → Shelf
put_at topic ms s other = if same_bytes other topic then ms else s other

abbrev rest_of : List Message → List Message
rest_of [] = []
rest_of (x ∷ xs) = xs

abbrev keep_last : List Message → Message → List Message
keep_last ms x = (if ltb (length ms) history_depth then ms else rest_of ms) ++ x ∷ []

abbrev shelf_take : Bytes → Shelf → List Message → Option (Message × Shelf)
shelf_take topic s [] = none
shelf_take topic s (x ∷ xs) = some (x, put_at topic xs s)

abbrev pub shelves : Topics
shelves = record {
  State = Shelf;
  start = λ topic. [];
  publish = λ topic x s. put_at topic (keep_last (s topic) x) s;
  take = λ topic s. shelf_take topic s (s topic);
}

pub put_at-same : (topic : Bytes) (ms : List Message) (s : Shelf) → put_at topic ms s topic ≡ ms
put_at-same topic ms s = rw ((same_bytes_iff topic topic).1 refl) refl

pub put_at-other :
    (topic other : Bytes) (ms : List Message) (s : Shelf)
    → other ≢ topic
    → put_at topic ms s other ≡ s other
put_at-other topic other ms s differ = elim (Bool-cases (same_bytes other topic)) [
  | inl same ↦ absurd (differ ((same_bytes_iff other topic).0 same))
  | inr past ↦ rw past refl
]

pub keep_last-room :
    (ms : List Message) (x : Message) → length ms < history_depth → keep_last ms x ≡ ms ++ x ∷ []
keep_last-room ms x h = let low : ltb (length ms) history_depth ≡ true = ground arith in rw low refl

pub keep_last-full :
    (y : Message) (ys : List Message) (x : Message)
    → history_depth ≤ length (y ∷ ys)
    → keep_last (y ∷ ys) x ≡ ys ++ x ∷ []
keep_last-full y ys x h =
    let high : ltb (suc (length ys)) history_depth ≡ false = ground arith in rw high refl

pub shelf_take-cases :
    (topic : Bytes) (x : Message) (s s' : Shelf) (ms : List Message)
    → shelf_take topic s ms ≡ some (x, s')
    → (xs : List Message) × (ms ≡ x ∷ xs) × (put_at topic xs s ≡ s')
shelf_take-cases topic x s s' [] e = absurd (cc (e))
shelf_take-cases topic x s s' (y ∷ ys) e = let same : y ≡ x = cc (e) in (ys, rw same refl, cc (e))

abbrev pub shelves-FifoLaws : FifoLaws shelves
shelves-FifoLaws = record {
  waiting = λ topic s. s topic;
  start_waiting = λ topic. refl;
  publish_room = λ topic x s h. rw put_at-same (keep_last-room (s topic) x h);
  publish_full = λ topic x y ys s e h. rw (put_at-same, e) (keep_last-full y ys x h);
  publish_others = λ topic other x s differ. put_at-other topic other _ s differ;
  take_waiting = λ topic x s s' e.
      let (xs, front, left) = shelf_take-cases topic x s s' (s topic) e in
      rw (front, ← left, put_at-same) refl;
  take_others = λ topic other x s s' e differ.
      let (xs, front, left) = shelf_take-cases topic x s s' (s topic) e in
      rw (← left) (put_at-other topic other xs s differ);
}

abbrev start_graph : Graph shelves
start_graph = record (new_graph shelves) { clock = 1000 }

-- The graphs behind the source's first turn, and behind relay 0.
abbrev first_graph : Graph shelves
first_graph = elim (source_publish shelves start_graph) [ done a g ↦ g | _ ↦ start_graph ]

abbrev second_graph : Graph shelves
second_graph = elim (relay_turn shelves 0 first_graph) [ done a g ↦ g | _ ↦ first_graph ]

relayed-runs : relay_turn shelves 0 first_graph ≡ done tt second_graph
unfolding relay_turn relay_listen same_bytes topic_name to_string source_publish
relayed-runs = refl

second_graph-Reaches : Reaches shelves second_graph
unfolding source_publish
second_graph-Reaches =
    after first_graph second_graph
      (after start_graph first_graph
        (after (new_graph shelves) start_graph started
          (tick (new_graph shelves) 1000 (omega arith) (omega arith)))
        (published _ _ refl))
      (relayed _ _ 0 (omega arith) relayed-runs)

Reaches-refines_example :
    LineReaches (line_of shelves shelves-FifoLaws second_graph)
    × ((x : Message) (rest : Shelf)
        → shelves.take (topic_name num_relays) second_graph.topics ≡ some (x, rest)
        → line_receive (line_of shelves shelves-FifoLaws second_graph)
          ≡ onto (line_of shelves shelves-FifoLaws) (sink_turn shelves second_graph))
Reaches-refines_example = Reaches-refines shelves shelves-FifoLaws second_graph second_graph-Reaches

Reaches-InOrder_example :
    InOrder second_graph.msgid second_graph.sink
      (row (suc num_relays) (waiting_at shelves shelves-FifoLaws second_graph.topics))
Reaches-InOrder_example = Reaches-InOrder shelves shelves-FifoLaws second_graph second_graph-Reaches

pub shelves-Prompt : Prompt shelves shelves-FifoLaws
shelves-Prompt = record {
  hand_out = λ topic x xs s e. (put_at topic xs s, ap (shelf_take topic s) e);
}

Reaches-Concludes_example : Concludes shelves shelves-FifoLaws second_graph
unfolding relay_turn source_publish same_bytes
Reaches-Concludes_example =
    Reaches-Concludes shelves shelves-FifoLaws shelves-Prompt second_graph second_graph-Reaches
      (omega arith)
