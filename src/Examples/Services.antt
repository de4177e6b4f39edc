-- ===== src/Examples/Services.antt =====
-- The services over queues that keep ten requests, and the first round of the client.
use ros2_pubsub_benchmark.Prelude.{ℕ, zero, ap, suc, length, ◌≡◌, ◌≢◌, ◌↔◌, ◌≤◌, ◌⊎◌, refl, arith}
use ros2_pubsub_benchmark.Effect.{done, exited}
use ros2_pubsub_benchmark.Prelude.Bytes.{same_bytes, to_string}
use ros2_pubsub_benchmark.ServiceBench.Nodes.{
  service_name, Process, new_process, client_round, sink_service_turn,
}
use ros2_pubsub_benchmark.ServiceBench.Steps.{tick, requested, Reachable, started, after}
use ros2_pubsub_benchmark.ServiceBench.Queued.{InTurn, NothingLost, under_way}
use ros2_pubsub_benchmark.ServiceBench.Queued.InTurn.{Reachable-InTurn}
use ros2_pubsub_benchmark.ServiceBench.Queued.Progress.{Busy, sends, sent, client_round-sent}
use ros2_pubsub_benchmark.ServiceBench.Queued.Onward.{Finishes, Stalled}
use ros2_pubsub_benchmark.ServiceBench.Queued.Completes.{
  there, Completes, Reachable-Completes, lost-Unending,
}
use ros2_pubsub_benchmark.ServiceBench.Queued.Bounded.{Run, begun, worked, went_on, Run-bounded}
use ros2_pubsub_benchmark.Examples.Lines.{shelves, shelves-FifoLaws, shelves-Prompt}

abbrev late_process : Process shelves
late_process = record (new_process shelves) { clock = 1000 }

abbrev asked_process : Process shelves
asked_process = elim (client_round shelves late_process) [ done a g ↦ g | _ ↦ late_process ]

asked_process-Reachable : Reachable shelves asked_process
unfolding client_round
asked_process-Reachable =
    after late_process asked_process
      (after (new_process shelves) late_process started
        (tick (new_process shelves) 1000 (omega arith) (omega arith)))
      (requested _ _ refl)

Reachable-InTurn_example : InTurn shelves shelves-FifoLaws asked_process
Reachable-InTurn_example =
    Reachable-InTurn shelves shelves-FifoLaws asked_process asked_process-Reachable

Reachable-Completes_example :
    NothingLost shelves shelves-FifoLaws asked_process
    ↔ Completes shelves shelves-FifoLaws asked_process
Reachable-Completes_example =
    Reachable-Completes shelves shelves-FifoLaws shelves-Prompt asked_process
      asked_process-Reachable

-- No request has been lost, so that the benchmark can be completed.
asked_process-NothingLost : NothingLost shelves shelves-FifoLaws asked_process
unfolding client_round same_bytes
asked_process-NothingLost = refl

asked_process-Run : Run shelves 1 asked_process
unfolding client_round
asked_process-Run =
    worked 0 late_process asked_process
      (went_on 0 (new_process shelves) late_process begun
        (tick (new_process shelves) 1000 (omega arith) (omega arith)))
      (sends _ _ (omega arith) refl)

Run-bounded_example :
    (1 ≤ 22000)
    × (Finishes shelves shelves-FifoLaws asked_process
        ⊎ (((g : Process shelves) × Busy shelves asked_process g)
            ⊎ Stalled shelves shelves-FifoLaws asked_process))
Run-bounded_example =
    Run-bounded shelves shelves-FifoLaws shelves-Prompt 1 asked_process asked_process-Run

-- The client makes eleven rounds before a service takes a request: the first request is dropped.
abbrev crowded : ℕ → Process shelves
crowded zero = late_process
crowded (suc n) = sent shelves shelves-FifoLaws (crowded n)

crowded-Reachable : (n : ℕ) → n ≤ 11 → Reachable shelves (crowded n) × ((crowded n).round ≡ n)
crowded-Reachable zero h = (
  after (new_process shelves) late_process started
      (tick (new_process shelves) 1000 (omega arith) (omega arith)),
  refl,
)
crowded-Reachable (suc n) h =
    let (r, count) = crowded-Reachable n (omega arith) in
    let e = client_round-sent shelves shelves-FifoLaws (crowded n) (omega (arith, h, count)) in
    (after (crowded n) (crowded (suc n)) r (requested _ _ e), ap suc count)

crowded-length : length (under_way shelves shelves-FifoLaws (crowded 11)) ≡ 10
unfolding same_bytes service_name to_string
crowded-length = refl

lost-Unending_example : sink_service_turn shelves (crowded 11) ≢ exited (crowded 11)
lost-Unending_example =
    lost-Unending shelves shelves-FifoLaws (crowded 11) (crowded 11) (crowded 11) 0
      (crowded-Reachable 11 (omega arith)).0 (omega (arith, crowded-length)) there
