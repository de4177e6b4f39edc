-- ===== src/TopicBench/Genuine.antt =====
-- What can be under way, and in the sink, whatever the order of the turns.
use ros2_pubsub_benchmark.Prelude.{
  ℕ, ◌-◌, ◌+◌, ◌/◌, ◌^◌, ◌≤◌, ◌<◌, ◌≡◌, List, [], ◌∷◌, All, length, arith,
}
use ros2_pubsub_benchmark.Prelude.Int.{ℤ, pos}
use ros2_pubsub_benchmark.Prelude.Bytes.{Bytes, bytes}
use ros2_pubsub_benchmark.ThriftBench.Sink.{num_relays, nanosec_per_hop}
use ros2_pubsub_benchmark.ThriftBench.Sink.Laws.{nanosec_per_hop-pos}
use ros2_pubsub_benchmark.TopicBench.{Message, Topics, TopicsLaws}
use ros2_pubsub_benchmark.TopicBench.Nodes.{Graph, new_graph}

-- A message as the source made it: with a number that the source has given out, a time that has
-- passed, and the source's own name.
pub record Genuine (count now : ℕ) (x : Message) : Type 0 where
  pub number : ℕ
  pub time : ℕ
  pub numbered : x.msgid ≡ pos number
  pub positive : 0 < number
  pub given_out : number ≤ count
  pub stamped : x.nanosec ≡ pos time
  pub passed : time ≤ now
  pub named : x.source ≡ bytes "pnode publisher"

-- A latency that fits into the time since the clock's start.
pub record Plausible (now : ℕ) (x : ℤ) : Type 0 where
  pub latency : ℕ
  pub value : x ≡ pos latency
  pub fits : latency ≤ now / (num_relays + 1)

pub Genuine-later :
    {count count' now now' : ℕ} {x : Message}
    → count ≤ count'
    → now ≤ now'
    → Genuine count now x
    → Genuine count' now' x
Genuine-later h k e = record {
  number = e.number;
  time = e.time;
  numbered = e.numbered;
  positive = e.positive;
  given_out = omega arith;
  stamped = e.stamped;
  passed = omega arith;
  named = e.named;
}

Plausible-later : {now now' : ℕ} {x : ℤ} → now ≤ now' → Plausible now x → Plausible now' x
Plausible-later h e = record { latency = e.latency; value = e.value; fits = omega arith }

pub All-Plausible_later :
    {now now' : ℕ} (xs : List ℤ) → now ≤ now' → All (Plausible now) xs → All (Plausible now') xs
All-Plausible_later [] h k = tt
All-Plausible_later (x ∷ xs) h k = (Plausible-later h k.0, All-Plausible_later xs h k.1)

-- The sample of a message that is stamped with a time that has passed.
pub sample-Plausible :
    (now time : ℕ) (stamp : ℤ)
    → now < 2 ^ 63
    → stamp ≡ pos time
    → time ≤ now
    → Plausible now (nanosec_per_hop (pos now) stamp)
sample-Plausible now time stamp fits e passed = record {
  latency = (now - time) / (num_relays + 1);
  value = rw e (nanosec_per_hop-pos now time fits passed);
  fits = omega (arith, passed);
}

module _ (m : Topics) (l : TopicsLaws m) where
  pub record WellFormed (g : Graph m) : Type 0 where
    pub genuine :
        (topic : Bytes) (x : Message) → l.Holds topic x g.topics → Genuine g.msgid g.clock x
    pub plausible : All (Plausible g.clock) g.sink.samples
    pub unfinished : length g.sink.samples < 1000
    pub readable : g.clock < 2 ^ 63

  pub new_graph-WellFormed : WellFormed (new_graph m)
  new_graph-WellFormed = record {
    genuine = λ topic x h. absurd (l.start_empty topic x h);
    plausible = tt;
    unfinished = omega arith;
    readable = omega arith;
  }
