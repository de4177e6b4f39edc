-- ===== src/ServiceBench/Labelled.antt =====
-- What can be under way, and in the sink, whatever the order of the turns.
use ros2_pubsub_benchmark.Prelude.{
  ℕ, ◌+◌, ◌^◌, ◌≤◌, ◌<◌, ◌≡◌, ◌⊎◌, inl, inr, refl, All, length, arith,
}
use ros2_pubsub_benchmark.Prelude.Int.{pos}
use ros2_pubsub_benchmark.Prelude.Bytes.{Bytes}
use ros2_pubsub_benchmark.TopicBench.{Message, Topics, TopicsLaws}
use ros2_pubsub_benchmark.TopicBench.Genuine.{Plausible}
use ros2_pubsub_benchmark.ServiceBench.Nodes.{
  Process, new_process, service_name, thread_request, relay_copy_request,
}

-- A request under the name of a service: the client's for the first service, or what the relay
-- service before it makes of the client's, in a round that has been, at a time that has passed.
pub record Labelled (rounds now : ℕ) (name : Bytes) (x : Message) : Type 0 where
  pub round : ℕ
  pub time : ℕ
  pub made : round < rounds
  pub passed : time ≤ now
  pub labelled :
      ((name ≡ service_name 0) × (x ≡ thread_request round (pos time)))
      ⊎ ((i : ℕ) × (name ≡ service_name (i + 1))
          × (x ≡ relay_copy_request i (thread_request round (pos time))))

pub Labelled-later :
    {rounds rounds' now now' : ℕ} {name : Bytes} {x : Message}
    → rounds ≤ rounds'
    → now ≤ now'
    → Labelled rounds now name x
    → Labelled rounds' now' name x
Labelled-later h k e = record {
  round = e.round;
  time = e.time;
  made = omega (arith, e.made);
  passed = omega (arith, e.passed);
  labelled = e.labelled;
}

-- The stamp of a labelled request, and what the next relay service makes of it.
pub stamp-Labelled :
    {rounds now : ℕ} {name : Bytes} {x : Message} (e : Labelled rounds now name x)
    → x.nanosec ≡ pos e.time
unfolding thread_request relay_copy_request
stamp-Labelled e = elim e.labelled [ inl first ↦ rw first.1 refl | inr later ↦ rw later.2 refl ]

pub relay_copy_request-Labelled :
    {rounds now : ℕ} {name : Bytes} {x : Message} (i : ℕ)
    → Labelled rounds now name x
    → Labelled rounds now (service_name (i + 1)) (relay_copy_request i x)
unfolding relay_copy_request thread_request
relay_copy_request-Labelled i e = record {
  round = e.round;
  time = e.time;
  made = e.made;
  passed = e.passed;
  labelled =
      inr (i, refl, elim e.labelled [ inl first ↦ rw first.1 refl | inr later ↦ rw later.2 refl ]);
}

module _ (m : Topics) (l : TopicsLaws m) where
  pub record Sound (g : Process m) : Type 0 where
    pub labelled :
        (name : Bytes) (x : Message) → l.Holds name x g.requests → Labelled g.round g.clock name x
    pub plausible : All (Plausible g.clock) g.sink.samples
    pub unfinished : length g.sink.samples < 1000
    pub readable : g.clock < 2 ^ 63
    pub bounded : g.round ≤ 1000

  pub new_process-Sound : Sound (new_process m)
  new_process-Sound = record {
    labelled = λ name x h. absurd (l.start_empty name x h);
    plausible = tt;
    unfinished = omega arith;
    readable = omega arith;
    bounded = omega arith;
  }
