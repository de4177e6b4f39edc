-- ===== src/GrpcBench/Chain/Delivery.antt =====
-- The benchmark over channels that deliver every call.
use mathlib.Core.List.{map}
use ros2_pubsub_benchmark.Prelude.{
  ℕ, zero, suc, ◌+◌, ◌≤◌, ◌<◌, ◌≡◌, refl, ◌∙◌, List, [], ◌∷◌, All, length, le→leb, lt→leb, arith,
}
use ros2_pubsub_benchmark.Prelude.Int.{ℤ}
use ros2_pubsub_benchmark.Effect.{done, exited}
use ros2_pubsub_benchmark.ThriftBench.Sink.{
  SinkHandler, new_sink, num_relays, nanosec_per_hop, insert_sample, finish,
}
use ros2_pubsub_benchmark.ThriftBench.Sink.Laws.{finish-Finished}
use ros2_pubsub_benchmark.ThriftBench.Chain.Session.{Session, Session-one, Session-more}
use ros2_pubsub_benchmark.GrpcBench.{Request, Response, Status, ok}
use ros2_pubsub_benchmark.GrpcBench.Services.{relay_request, relay_answer, sink_answer}
use ros2_pubsub_benchmark.GrpcBench.Chain.{
  Service, Channel, service, main_request, client_request, report, Sending, send_requests,
}

-- The stub's call is the service's.
pub record Delivers (channel : Channel) : Type 0 where
  pub call : (s : Service) (request : Request) (h : SinkHandler) → channel s request h ≡ s request h

-- The latency that a request leaves at the sink.
abbrev pub sample_of : Sending → ℤ
sample_of a = nanosec_per_hop a.received a.sent

module _ (channels : ℕ → Channel) (nanosec : ℤ)
    (open_all : (port : ℕ) → Delivers (channels port)) where
  service-returned :
      (hops id : ℕ) (request : Request) (h : SinkHandler)
      → suc (length h.samples) < 1000
      → service channels nanosec hops id request h
        ≡ done
            (ok, record { ack = request.msgid })
            (insert_sample (nanosec_per_hop nanosec request.nanosec) h)
  unfolding service relay_answer sink_answer relay_request
  service-returned zero id request h below = rw (lt→leb 1000 (suc (length h.samples)) below) refl
  service-returned (suc hops) id request h below =
      rw
        (
          (open_all (id + 5000 + 1)).call,
          service-returned hops (suc id) (relay_request (id + 5000) request) h below,
        )
        refl

  service-finish :
      (hops id : ℕ) (request : Request) (h h' : SinkHandler)
      → 1000 ≤ suc (length h.samples)
      → finish {A = Status × Response} (insert_sample (nanosec_per_hop nanosec request.nanosec) h)
        ≡ exited h'
      → service channels nanosec hops id request h ≡ exited h'
  unfolding service relay_answer sink_answer relay_request
  service-finish zero id request h h' full e = rw (le→leb 1000 (suc (length h.samples)) full) e
  service-finish (suc hops) id request h h' full e =
      rw
        (
          (open_all (id + 5000 + 1)).call,
          service-finish hops (suc id) (relay_request (id + 5000) request) h h' full e,
        )
        refl

  -- Over channels that deliver every call, with fewer than 999 samples in the sink, a request of
  -- the gRPC benchmark gets the status OK with its own message number, and leaves the sink with one
  -- sample more: that of the time stamp that the client put in, against the sink's clock.
  pub main_request-returned :
      (request : Request) (h : SinkHandler)
      → suc (length h.samples) < 1000
      → main_request channels nanosec request h
        ≡ done
            (ok, record { ack = request.msgid })
            (insert_sample (nanosec_per_hop nanosec request.nanosec) h)
  unfolding main_request
  main_request-returned request h below =
      (open_all 5000).call _ request h ∙ service-returned num_relays 0 request h below

  main_request-finish :
      (request : Request) (h h' : SinkHandler)
      → 1000 ≤ suc (length h.samples)
      → finish {A = Status × Response} (insert_sample (nanosec_per_hop nanosec request.nanosec) h)
        ≡ exited h'
      → main_request channels nanosec request h ≡ exited h'
  unfolding main_request
  main_request-finish request h h' full e =
      (open_all 5000).call _ request h ∙ service-finish num_relays 0 request h h' full e

send_requests-from :
    (rest : List Sending) (a : Sending) (h : SinkHandler)
    → suc (length rest) + length h.samples ≡ 1000
    → All (λ b. (port : ℕ) → Delivers (b.channels port)) (a ∷ rest)
    → (h' : SinkHandler) × (send_requests (a ∷ rest) h ≡ exited h')
      × Session (map sample_of (a ∷ rest)) h h'
unfolding send_requests client_request insert_sample report
send_requests-from [] a h total open_all =
    let (h', e, f) =
      finish-Finished {A = Status × Response} (insert_sample (sample_of a) h) (omega arith)
        (omega arith) in
    (
      h',
      rw
          (main_request-finish a.channels a.received open_all.0 (client_request a.sent) h h'
            (omega arith) e)
          refl,
      Session-one (sample_of a) h h' f,
    )
send_requests-from (b ∷ rest) a h total open_all =
    let (h', e, f) =
      send_requests-from rest b (insert_sample (sample_of a) h) (omega arith) open_all.1 in
    (
      h',
      rw
          (main_request-returned a.channels a.received open_all.0 (client_request a.sent) h
            (omega arith))
          e,
      Session-more (sample_of a) (map sample_of (b ∷ rest)) h h' f,
    )

-- Over channels that deliver every call, the loop of the gRPC benchmark that sends 1000 requests to
-- a new sink ends the process, at whatever times they are sent and received. By then the sink has
-- one sample for each request, has printed a line for each, in the order of the requests, and then
-- the summary of all 1000.
pub send_requests-Session :
    (sendings : List Sending)
    → length sendings ≡ 1000
    → All (λ b. (port : ℕ) → Delivers (b.channels port)) sendings
    → (h' : SinkHandler) × (send_requests sendings new_sink ≡ exited h')
      × Session (map sample_of sendings) new_sink h'
send_requests-Session [] total open_all = absurd (omega arith)
send_requests-Session (a ∷ rest) total open_all =
    send_requests-from rest a new_sink (omega arith) open_all
