-- ===== src/TopicBench/Setup/Wiring.antt =====
-- Which node is joined to which.
use ros2_pubsub_benchmark.Prelude.{
  ℕ, zero, suc, ◌+◌, ◌<◌, ◌≡◌, ◌≢◌, refl, ap, ◌∙◌, List, [], ◌∷◌, ◌++◌, All, some, get_elem?, arith,
}
use ros2_pubsub_benchmark.Prelude.Bytes.{Bytes, bytes, to_string}
use ros2_pubsub_benchmark.Prelude.Digits.{stoi-to_string, to_string-inj}
use ros2_pubsub_benchmark.ThriftBench.Sink.{num_relays}
use ros2_pubsub_benchmark.TopicBench.Nodes.{topic_name}
use ros2_pubsub_benchmark.TopicBench.Setup.{
  RelayNode, relay_node, main_relays, names_of, executor_nodes, source_publication,
  sink_subscription,
}

-- The relay between topic k and the next one.
abbrev pub relay_between : ℕ → RelayNode
relay_between k = record {
  name = bytes "relay_" ++ to_string k;
  index = k;
  subscription = topic_name k;
  publication = topic_name (k + 1);
}

relay_node-between : (k : ℕ) → relay_node (to_string k) ≡ relay_between k
unfolding relay_node topic_name
relay_node-between k = rw (stoi-to_string k) refl

main_relays-get_elem? :
    (left i k : ℕ) → k < left → get_elem? (main_relays left i) k ≡ some (relay_between (i + k))
unfolding main_relays
main_relays-get_elem? zero i k h = absurd (omega arith)
main_relays-get_elem? (suc left) i zero h =
    let same : i + 0 ≡ i = omega arith in rw same (ap some (relay_node-between i))
main_relays-get_elem? (suc left) i (suc k) h =
    let same : i + suc k ≡ suc i + k = omega arith in
    rw same (main_relays-get_elem? left (suc i) k (omega arith))

-- No name occurs twice.
abbrev pub Distinct : List Bytes → Type 0
Distinct [] = Unit {0}
Distinct (x ∷ xs) = All (λ (y : Bytes). x ≢ y) xs × Distinct xs

relay_name-neq : (i j : ℕ) → i ≢ j → bytes "relay_" ++ to_string i ≢ bytes "relay_" ++ to_string j
relay_name-neq i j differ e = differ (to_string-inj i j (cc (e)))

-- A name that differs from those of the relays, in front of them and the sink.
names_of-All :
    (left i : ℕ) (P : Bytes → Type 0) (last : Bytes)
    → ((j : ℕ) → i < suc j → P (bytes "relay_" ++ to_string j))
    → P last
    → All P (names_of (main_relays left i) ++ last ∷ [])
unfolding main_relays relay_node
names_of-All zero i P last h k = (k, tt)
names_of-All (suc left) i P last h k =
    (h i (omega arith), names_of-All left (suc i) P last (λ j less. h j (omega (arith, less))) k)

names_of-Distinct : (left i : ℕ) → Distinct (names_of (main_relays left i) ++ bytes "sink" ∷ [])
unfolding main_relays relay_node
names_of-Distinct zero i = (tt, tt)
names_of-Distinct (suc left) i = (
  names_of-All left (suc i) (λ y. bytes "relay_" ++ to_string i ≢ y) (bytes "sink")
      (λ j less. relay_name-neq i j (λ z. absurd (omega (arith, less, z)))) (λ e. cc (e)),
  names_of-Distinct left (suc i),
)

abbrev first_byte : Bytes → ℕ
first_byte [] = 0
first_byte (b ∷ bs) = b

-- "s" is not "r".
source-neq_relay : (text : Bytes) → bytes "source" ≢ bytes "relay_" ++ text
source-neq_relay text e = let same : 115 ≡ 114 = ap first_byte e in absurd (omega (arith, same))

-- The nodes that `main` of the topics' benchmark makes are joined to a chain: the source publishes
-- on the first topic, each relay k, whose index is the number that its argument spells, listens to
-- topic k and publishes on the next one, and the sink listens to the last topic. No two of the
-- nodes that the executor spins have one name.
pub main_relays-chained :
    (source_publication ≡ topic_name 0)
    × ((k : ℕ) → k < num_relays → get_elem? (main_relays num_relays 0) k ≡ some (relay_between k))
    × (sink_subscription ≡ topic_name num_relays)
    × Distinct executor_nodes
unfolding source_publication sink_subscription topic_name executor_nodes to_string
main_relays-chained = (
  refl,
  λ k h.
      let same : 0 + k ≡ k = omega arith in
      main_relays-get_elem? num_relays 0 k h ∙ ap (λ i. some (relay_between i)) same,
  refl,
  (
    names_of-All num_relays 0 (λ y. bytes "source" ≢ y) (bytes "sink")
        (λ j less. source-neq_relay (to_string j)) (λ e. cc (e)),
    names_of-Distinct num_relays 0,
  ),
)
