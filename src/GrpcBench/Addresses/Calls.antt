-- ===== src/GrpcBench/Addresses/Calls.antt =====
-- The way of a call through the addresses.
use ros2_pubsub_benchmark.Prelude.{
  ℕ, zero, suc, ◌+◌, ◌≤◌, ◌<◌, ◌≡◌, refl, ap, List, [], ◌∷◌, ◌++◌, some, Bool, true, false, ==_iff,
  ◌∙◌, arith,
}
use native.Mathlib.Decide.{dec_lt}
use ros2_pubsub_benchmark.Prelude.Int.{ℤ}
use ros2_pubsub_benchmark.Prelude.Bytes.{Bytes, bytes, to_string}
use ros2_pubsub_benchmark.ThriftBench.Sink.{num_relays}
use ros2_pubsub_benchmark.GrpcBench.{Status}
use ros2_pubsub_benchmark.GrpcBench.Chain.{Channel, service, main_request}
use ros2_pubsub_benchmark.GrpcBench.Addresses.{
  service_port, listen_address, relay_target, client_target, relay, sink, Running, start_relays,
  main_services, Loopback, answering, called,
}

-- The loopback address of the service with a number.
abbrev target_of : ℕ → Bytes
target_of id = bytes "127.0.0.1:" ++ to_string (service_port id)

relay_target-next : (id : ℕ) → relay_target (service_port id) ≡ target_of (suc id)
unfolding relay_target service_port
relay_target-next id = let next : id + 5000 + 1 ≡ suc id + 5000 = omega arith in rw next refl

client_target-first : client_target ≡ target_of 0
unfolding client_target service_port to_string
client_target-first = refl

module _ (leads : Bytes → Bytes → Bool) (loop : Loopback leads) where
  leads-own :
      (k : ℕ) → k ≤ num_relays → leads (target_of k) (listen_address (service_port k)) ≡ true
  unfolding service_port
  leads-own k h = loop (k + 5000) (k + 5000) (omega arith) (omega arith) ∙ (==_iff _ _).1 refl

  leads-other :
      (i k : ℕ)
      → i < k
      → k ≤ num_relays
      → leads (target_of k) (listen_address (service_port i)) ≡ false
  unfolding service_port
  leads-other i k less h = loop (i + 5000) (k + 5000) (omega arith) (omega arith) ∙ ground arith

  answering-relay :
      (left i k : ℕ) (rest : List Running)
      → i ≤ k
      → k < i + left
      → k ≤ num_relays
      → answering leads (start_relays left i ++ rest) (target_of k) ≡ some (relay k)
  unfolding answering start_relays
  answering-relay zero i k rest low high known = absurd (omega arith)
  answering-relay (suc left) i k rest low high known = elim (dec_lt i k) [
    | yes below ↦
        rw (leads-other i k below known)
          (answering-relay left (suc i) k rest below (omega arith) known)
    | no above ↦ let here : k ≡ i = omega arith in rw (here, leads-own i (rw (← here) known)) refl
  ]

  answering-past :
      (left i k : ℕ) (rest : List Running)
      → i + left ≤ k
      → k ≤ num_relays
      → answering leads (start_relays left i ++ rest) (target_of k)
        ≡ answering leads rest (target_of k)
  unfolding answering start_relays
  answering-past zero i k rest high known = refl
  answering-past (suc left) i k rest high known =
      rw (leads-other i k (omega arith) known)
        (answering-past left (suc i) k rest (omega arith) known)

  main_services-relay :
      (k : ℕ) → k < num_relays → answering leads main_services (target_of k) ≡ some (relay k)
  unfolding main_services
  main_services-relay k h =
      answering-relay num_relays 0 k _ (omega arith) (omega arith) (omega arith)

  main_services-sink : answering leads main_services (target_of num_relays) ≡ some sink
  unfolding main_services answering
  main_services-sink =
      answering-past num_relays 0 num_relays
        (record { address = listen_address (service_port num_relays); node = sink } ∷ [])
        (omega arith) (omega arith)
      ∙ rw (leads-own num_relays (omega arith)) refl

  module _ (channels : ℕ → Channel) (nanosec : ℤ) (refused : Status) where
    called-service :
        (hops id : ℕ)
        → id + hops ≡ num_relays
        → called leads channels nanosec main_services refused hops (target_of id)
          ≡ service channels nanosec hops id
    unfolding called service
    called-service zero id e =
        let last : id ≡ num_relays = omega arith in rw (last, main_services-sink, called) refl
    called-service (suc hops) id e =
        rw
          (
            main_services-relay id (omega arith),
            called,
            relay_target-next id,
            called-service hops (suc id) (omega arith),
            service_port,
          )
          refl

    -- On a host where a target at the loopback address leads to the service on its port and to no
    -- other, a call of the client's stub takes the way of the chain: each of the 20 relays, which
    -- `main` has started, has the target of the next one, and the last relay has the target of the
    -- sink.
    pub main_services-called :
        channels 5000 (called leads channels nanosec main_services refused num_relays client_target)
        ≡ main_request channels nanosec
    unfolding main_request
    main_services-called =
        rw client_target-first (ap (channels 5000) (called-service num_relays 0 refl))
