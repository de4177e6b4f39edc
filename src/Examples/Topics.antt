-- ===== src/Examples/Topics.antt =====
-- Topics as one list of messages in the order of their publication, and a message on its way.
use ros2_pubsub_benchmark.Prelude.{
  ◌≡◌, refl, ◌⊎◌, inl, inr, List, [], ◌∷◌, ◌++◌, Option, none, some, Bool-cases, Option-cases, sym,
  subst, if◌then◌else◌, arith,
}
use ros2_pubsub_benchmark.Prelude.Int.{pos}
use ros2_pubsub_benchmark.Prelude.Bytes.{Bytes, to_string, same_bytes, same_bytes_iff}
use ros2_pubsub_benchmark.Effect.{exited, done}
use ros2_pubsub_benchmark.TopicBench.{Message, Topics, TopicsLaws}
use ros2_pubsub_benchmark.TopicBench.Nodes.{
  Graph, new_graph, source_publish, source_message, relay_turn, relay_listen, topic_name, sink_turn,
}
use ros2_pubsub_benchmark.TopicBench.Steps.{tick, published, relayed, Reaches, started, after}
use ros2_pubsub_benchmark.TopicBench.Genuine.{WellFormed}
use ros2_pubsub_benchmark.TopicBench.Endings.{Concluded, sink_turn-ends}
use ros2_pubsub_benchmark.TopicBench.Invariant.{Reaches-WellFormed}

abbrev pub Queue : Type 0
Queue = List (Bytes × Message)

-- The oldest message of a topic, and what is left.
abbrev pub take_oldest : Bytes → Queue → Option (Message × Queue)
take_oldest topic [] = none
take_oldest topic ((other, x) ∷ rest) =
    if same_bytes topic other then some (x, rest) else elim (take_oldest topic rest) [
      | none ↦ none
      | some (y, left) ↦ some (y, (other, x) ∷ left)
    ]

abbrev pub Held : Bytes → Message → Queue → Type 0
Held topic x [] = ⊥
Held topic x ((other, y) ∷ rest) = ((topic ≡ other) × (x ≡ y)) ⊎ Held topic x rest

Held-append :
    (topic other : Bytes) (x y : Message) (q : Queue)
    → Held other y (q ++ (topic, x) ∷ [])
    → Held other y q ⊎ ((other ≡ topic) × (y ≡ x))
Held-append topic other x y [] (inl e) = inr e
Held-append topic other x y [] (inr h) = elim h [ ]
Held-append topic other x y (_ ∷ q) (inl e) = inl (inl e)
Held-append topic other x y (_ ∷ q) (inr h) = elim (Held-append topic other x y q h) [
  | inl before ↦ inl (inr before)
  | inr new ↦ inr new
]

take_oldest-Held :
    (topic : Bytes) (x : Message) (q q' : Queue)
    → take_oldest topic q ≡ some (x, q')
    → Held topic x q × ((other : Bytes) (y : Message) → Held other y q' → Held other y q)
take_oldest-Held topic x [] q' e = absurd (cc (e))
take_oldest-Held topic x ((other, z) ∷ rest) q' e = elim (Bool-cases (same_bytes topic other)) [
  | inl here ↦
      let h = rw here at e in
      let same : z ≡ x = cc (h) in
      let left : rest ≡ q' = cc (h) in
      (
        inl ((same_bytes_iff topic other).0 here, sym same),
        λ u y k. inr (subst (λ v. Held u y v) (sym left) k),
      )
  | inr past ↦ elim (Option-cases (take_oldest topic rest)) [
    | inl nothing ↦ let h = rw (past, nothing) at e in absurd (cc (h))
    | inr ((y, left), taken) ↦
        let h = rw (past, taken) at e in
        let same : y ≡ x = cc (h) in
        let all : (other, z) ∷ left ≡ q' = cc (h) in
        let (held, kept) = take_oldest-Held topic y rest left taken in
        (
          inr (subst (λ v. Held topic v rest) same held),
          λ u w k. elim (subst (λ v. Held u w v) (sym all) k) [
            | inl new ↦ inl new
            | inr before ↦ inr (kept u w before)
          ],
        )
  ]
]

abbrev pub one_queue : Topics
one_queue = record {
  State = Queue;
  start = [];
  publish = λ topic x q. q ++ (topic, x) ∷ [];
  take = take_oldest;
}

pub one_queue-Laws : TopicsLaws one_queue
one_queue-Laws = record {
  Holds = Held;
  start_empty = λ topic x h. h;
  publish_holds = Held-append;
  take_holds = λ topic x s s' e. (take_oldest-Held topic x s s' e).0;
  take_keeps = λ topic other x y s s' e. (take_oldest-Held topic x s s' e).1 other y;
}

-- The message that the source publishes at 1000 ns, and the graph behind relay 0.
abbrev first_message : Message
first_message = source_message 1 (pos 1000)

abbrev published_graph : Graph one_queue
published_graph = record (new_graph one_queue) {
  clock = 1000;
  msgid = 1;
  topics = (topic_name 0, first_message) ∷ [];
}

abbrev relayed_graph : Graph one_queue
relayed_graph = record published_graph { topics = (topic_name 1, first_message) ∷ [] }

published-runs :
    source_publish one_queue (record (new_graph one_queue) { clock = 1000 })
    ≡ done tt published_graph
unfolding source_publish
published-runs = refl

relayed-runs : relay_turn one_queue 0 published_graph ≡ done tt relayed_graph
unfolding relay_turn relay_listen same_bytes topic_name to_string
relayed-runs = refl

relayed_graph-Reaches : Reaches one_queue relayed_graph
relayed_graph-Reaches =
    after published_graph relayed_graph
      (after (record (new_graph one_queue) { clock = 1000 }) published_graph
        (after (new_graph one_queue) (record (new_graph one_queue) { clock = 1000 }) started
          (tick (new_graph one_queue) 1000 (omega arith) (omega arith)))
        (published _ _ published-runs))
      (relayed _ _ 0 (omega arith) relayed-runs)

Reaches-WellFormed_example : WellFormed one_queue one_queue-Laws relayed_graph
Reaches-WellFormed_example =
    Reaches-WellFormed one_queue one_queue-Laws relayed_graph relayed_graph-Reaches

sink_turn-ends_example :
    ((g : Graph one_queue) × (sink_turn one_queue relayed_graph ≡ done tt g))
    ⊎ ((g : Graph one_queue) × (sink_turn one_queue relayed_graph ≡ exited g)
        × Concluded 1000 g.sink)
sink_turn-ends_example = sink_turn-ends one_queue one_queue-Laws relayed_graph relayed_graph-Reaches
