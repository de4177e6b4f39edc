-- ===== src/Examples/Requests.antt =====
-- A request on its way through the services, over the queue of Examples/Topics.antt.
use ros2_pubsub_benchmark.Prelude.{◌≡◌, refl, ◌⊎◌, [], ◌∷◌, Option, some, arith}
use ros2_pubsub_benchmark.Prelude.Int.{ℤ, pos}
use ros2_pubsub_benchmark.Prelude.Bytes.{to_string, same_bytes}
use ros2_pubsub_benchmark.Effect.{done, exited}
use ros2_pubsub_benchmark.TopicBench.{Message}
use ros2_pubsub_benchmark.ServiceBench.Nodes.{
  Process, new_process, service_name, thread_request, relay_copy_request, client_round,
  service_turn, sink_service_turn,
}
use ros2_pubsub_benchmark.ServiceBench.Steps.{tick, requested, relayed, Reachable, started, after}
use ros2_pubsub_benchmark.ServiceBench.Labelled.{Sound}
use ros2_pubsub_benchmark.TopicBench.Endings.{Concluded}
use ros2_pubsub_benchmark.ServiceBench.Endings.{sink_service_turn-ends}
use ros2_pubsub_benchmark.ServiceBench.Invariant.{Reachable-Sound}
use ros2_pubsub_benchmark.Examples.Topics.{one_queue, one_queue-Laws}

abbrev first_request : Message
first_request = thread_request 0 (pos 1000)

abbrev requested_process : Process one_queue
requested_process = record (new_process one_queue) {
  clock = 1000;
  round = 1;
  requests = (service_name 0, first_request) ∷ [];
}

abbrev passed_process : Process one_queue
passed_process = record requested_process {
  requests = (service_name 1, relay_copy_request 0 first_request) ∷ [];
}

requested-runs :
    client_round one_queue (record (new_process one_queue) { clock = 1000 })
    ≡ done tt requested_process
unfolding client_round
requested-runs = refl

passed-runs : service_turn one_queue 0 requested_process ≡ done (some (pos 0)) passed_process
unfolding service_turn same_bytes service_name to_string thread_request
passed-runs = refl

passed_process-Reachable : Reachable one_queue passed_process
passed_process-Reachable =
    after requested_process passed_process
      (after (record (new_process one_queue) { clock = 1000 }) requested_process
        (after (new_process one_queue) (record (new_process one_queue) { clock = 1000 }) started
          (tick (new_process one_queue) 1000 (omega arith) (omega arith)))
        (requested _ _ requested-runs))
      (relayed _ _ 0 (some (pos 0)) (omega arith) passed-runs)

Reachable-Sound_example : Sound one_queue one_queue-Laws passed_process
Reachable-Sound_example =
    Reachable-Sound one_queue one_queue-Laws passed_process passed_process-Reachable

sink_service_turn-ends_example :
    ((g : Process one_queue) × (ack : Option ℤ) × (sink_service_turn one_queue passed_process
        ≡ done ack g))
    ⊎ ((g : Process one_queue) × (sink_service_turn one_queue passed_process ≡ exited g)
        × Concluded 1000 g.sink)
sink_service_turn-ends_example =
    sink_service_turn-ends one_queue one_queue-Laws passed_process passed_process-Reachable
