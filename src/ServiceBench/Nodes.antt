-- ===== src/ServiceBench/Nodes.antt =====
-- The client thread, the relay services and the sink service of psrv/src/srv.cpp. A request is the
-- timing that it holds. Nobody waits for a response: the callbacks that get them are empty.
use ros2_pubsub_benchmark.Prelude.{
  ℕ, suc, ◌+◌, ◌++◌, Option, none, some, length, ltb, leb, if◌then◌else◌,
}
use ros2_pubsub_benchmark.Prelude.Int.{ℤ, pos}
use ros2_pubsub_benchmark.Prelude.Bytes.{Bytes, bytes, to_string}
use ros2_pubsub_benchmark.Effect.{Ending, done, threw, exited, undefined, spinning, M}
use ros2_pubsub_benchmark.ThriftBench.Sink.{
  SinkHandler, new_sink, num_relays, nanosec_per_hop, insert_sample, finish,
}
use ros2_pubsub_benchmark.TopicBench.{Message, Topics}

unfoldable pub service_name : ℕ → Bytes
unfolding to_string
service_name index = bytes "srv_relay_" ++ to_string index

-- The request that client_thread makes in round i.
unfoldable pub thread_request : ℕ → ℤ → Message
thread_request i nanosec = record { msgid = pos i; nanosec = nanosec; source = bytes "client" }

-- The copy that relay service i makes.
unfoldable pub relay_copy_request : ℕ → Message → Message
unfolding to_string
relay_copy_request i request = record {
  msgid = request.msgid;
  nanosec = request.nanosec;
  source = bytes "srv relay " ++ to_string i;
}

-- The sink service's callback, when the steady clock reads `nanosec`: response->ack.
unfoldable pub sink_service : ℤ → Message → M SinkHandler ℤ
unfolding nanosec_per_hop insert_sample finish
sink_service nanosec request h =
    let h' = insert_sample (nanosec_per_hop nanosec request.nanosec) h in
    if leb 1000 (length h'.samples) then finish h' else done request.msgid h'

-- The whole process: the requests under way, the rounds that client_thread has made, `data` with
-- the output, and the reading of the steady clock.
pub record Process (m : Topics) : Type 0 where
  pub requests : m.State
  pub round : ℕ
  pub sink : SinkHandler
  pub clock : ℕ

module _ (m : Topics) where
  abbrev pub new_process : Process m
  new_process = record { requests = m.start; round = 0; sink = new_sink; clock = 0 }

  -- One round of the loop of client_thread; after 1000 rounds it does nothing more.
  unfoldable pub client_round : M (Process m) (Unit {0})
  unfolding thread_request service_name
  client_round g =
      if ltb g.round 1000
      then done tt (record g {
        round = suc g.round;
        requests = m.publish (service_name 0) (thread_request g.round (pos g.clock)) g.requests;
      })
      else done tt g

  -- The executor gives relay service i a turn: response->ack, if there was a request.
  unfoldable pub service_turn : ℕ → M (Process m) (Option ℤ)
  unfolding relay_copy_request service_name
  service_turn i g = elim (m.take (service_name i) g.requests) [
    | none ↦ done none g
    | some (request, rest) ↦ done (some request.msgid) (record g {
      requests = m.publish (service_name (i + 1)) (relay_copy_request i request) rest;
    })
  ]

  -- An ending of the sink service, within the process.
  abbrev pub in_process : Process m → Ending SinkHandler ℤ → Ending (Process m) (Option ℤ)
  in_process g (done a h) = done (some a) (record g { sink = h })
  in_process g (threw e h) = threw e (record g { sink = h })
  in_process g (exited h) = exited (record g { sink = h })
  in_process g (undefined h) = undefined (record g { sink = h })
  in_process g (spinning h) = spinning (record g { sink = h })

  -- The executor gives the sink service a turn.
  unfoldable pub sink_service_turn : M (Process m) (Option ℤ)
  unfolding sink_service service_name
  sink_service_turn g = elim (m.take (service_name num_relays) g.requests) [
    | none ↦ done none g
    | some (request, rest) ↦
        in_process (record g { requests = rest }) (sink_service (pos g.clock) request g.sink)
  ]
