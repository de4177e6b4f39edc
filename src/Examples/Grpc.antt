-- ===== src/Examples/Grpc.antt =====
-- The gRPC benchmark over channels that deliver, and over one that fails.
use ros2_pubsub_benchmark.Prelude.{
  ℕ, zero, suc, ◌+◌, ◌*◌, ◌<◌, ◌≡◌, refl, ap, sym, ◌∙◌, ◌==◌, ==_iff, Bool, Bool-cases, inl, inr,
  List, [], ◌∷◌, All, length, arith, ltb, if◌then◌else◌,
}
use mathlib.Core.List.{map}
use ros2_pubsub_benchmark.Prelude.Int.{pos}
use ros2_pubsub_benchmark.Prelude.Bytes.{Bytes, bytes, same_bytes, same_bytes_iff, to_string}
use ros2_pubsub_benchmark.Prelude.Digits.{to_string-inj}
use ros2_pubsub_benchmark.Effect.{done, exited}
use ros2_pubsub_benchmark.ThriftBench.Sink.{SinkHandler, num_relays, new_sink}
use ros2_pubsub_benchmark.ThriftBench.Chain.Session.{Session}
use ros2_pubsub_benchmark.GrpcBench.{ok, failed, new_response}
use ros2_pubsub_benchmark.GrpcBench.Chain.{
  Channel, main_request, client_request, Sending, send_requests,
}
use ros2_pubsub_benchmark.GrpcBench.Chain.Delivery.{Delivers, sample_of, send_requests-Session}
use ros2_pubsub_benchmark.GrpcBench.Addresses.{
  listen_address, client_target, main_services, Loopback, called,
}
use ros2_pubsub_benchmark.GrpcBench.Addresses.Calls.{main_services-called}
use ros2_pubsub_benchmark.GrpcBench.Chain.Failure.{main_request-lost}

abbrev delivering : ℕ → Channel
delivering port s = s

-- No connection to port 5010 or a later one.
abbrev cut : ℕ → Channel
cut port s =
    if ltb port 5010 then s else λ request h. done (failed (bytes "unavailable"), new_response) h

cut-Delivers : (port : ℕ) → port < 5010 → Delivers (cut port)
cut-Delivers port h = record { call = λ s request h'. ground arith }

main_request-lost_example :
    main_request cut (pos 4200) (client_request (pos 0)) new_sink
    ≡ done (ok, record { ack = pos 10 }) new_sink
unfolding client_request
main_request-lost_example =
    main_request-lost cut (pos 4200) (bytes "unavailable") 5010
      (record { call = λ s request h. refl }) cut-Delivers (client_request (pos 0)) new_sink
      (omega arith) (omega arith)

abbrev sendings_of : ℕ → List Sending
sendings_of zero = []
sendings_of (suc n) =
    record { sent = pos (n * 100); received = pos (n * 100 + 42); channels = delivering }
    ∷ sendings_of n

sendings_of-length : (n : ℕ) → length (sendings_of n) ≡ n
sendings_of-length zero = refl
sendings_of-length (suc n) = ap suc (sendings_of-length n)

sendings_of-All : (n : ℕ) → All (λ a. (port : ℕ) → Delivers (a.channels port)) (sendings_of n)
sendings_of-All zero = tt
sendings_of-All (suc n) = (λ port. record { call = λ s request h. refl }, sendings_of-All n)

send_requests-Session_example :
    (h' : SinkHandler) × (send_requests (sendings_of 1000) new_sink ≡ exited h')
    × Session (map sample_of (sendings_of 1000)) new_sink h'
send_requests-Session_example =
    send_requests-Session (sendings_of 1000) (sendings_of-length 1000) (sendings_of-All 1000)

-- Behind the hosts, the texts of the ports.
abbrev behind : ℕ → Bytes → Bytes
behind zero text = text
behind (suc n) [] = []
behind (suc n) (c ∷ text) = behind n text

abbrev port_leads : Bytes → Bytes → Bool
port_leads target address = same_bytes (behind 10 target) (behind 8 address)

to_string-same : (p q : ℕ) → same_bytes (to_string q) (to_string p) ≡ (p == q)
to_string-same p q = elim (Bool-cases (p == q)) [
  | inl same ↦
      let e : q ≡ p = sym ((==_iff p q).0 same) in
      (same_bytes_iff _ _).1 (ap to_string e) ∙ sym same
  | inr differ ↦ elim (Bool-cases (same_bytes (to_string q) (to_string p))) [
    | inl texts ↦
        let e : p ≡ q = sym (to_string-inj q p ((same_bytes_iff _ _).0 texts)) in
        let same = (==_iff p q).1 e in absurd (cc (same, differ))
    | inr texts ↦ texts ∙ sym differ
  ]
]

port_leads-Loopback : Loopback port_leads
unfolding listen_address
port_leads-Loopback p q small small' = to_string-same p q

main_services-called_example :
    delivering 5000 (
      called port_leads delivering
        (pos 4200)
        main_services
        (failed (bytes "unavailable"))
        num_relays
        client_target)
    ≡ main_request delivering (pos 4200)
main_services-called_example =
    main_services-called port_leads port_leads-Loopback delivering (pos 4200)
      (failed (bytes "unavailable"))
