-- ===== src/ThriftBench/Chain.antt =====
-- The relays of `main`, each with its connection to the next hop, down to the sink.
pub mod Delivery
pub mod Session
use ros2_pubsub_benchmark.Prelude.{ℕ, zero, suc, List, [], ◌∷◌}
use ros2_pubsub_benchmark.Prelude.Int.{ℤ, pos}
use ros2_pubsub_benchmark.Prelude.Bytes.{Bytes, bytes}
use ros2_pubsub_benchmark.Effect.{Exception, M, pure, ◌>>=◌}
use ros2_pubsub_benchmark.Thrift.Protocol.{Protocol, Laws}
use ros2_pubsub_benchmark.Thrift.Timing.{Timing, new_timing}
use ros2_pubsub_benchmark.Thrift.Remote.{Network, remote_bench}
use ros2_pubsub_benchmark.ThriftBench.Sink.{SinkHandler, num_relays, sink_bench}
use ros2_pubsub_benchmark.ThriftBench.Relay.{relay_bench}

module _ (p : Protocol) (l : Laws p) (net : Network p l) where
  -- The world of a handler with `hops` relays behind it: the two ends of its client's connection
  -- and the world of the next handler. The sink's is its own state.
  abbrev pub World : ℕ → Type 0
  World zero = SinkHandler
  World (suc hops) = p.State × (p.State × World hops)

  module _ (what : Exception → Bytes) (fuel : ℕ) (nanosec : ℤ) where
    -- The handler on port id + 5000, when `hops` more ports follow it: relay number id, whose client
    -- calls the next port, or the sink, whose clock reads `nanosec`.
    unfoldable pub handler : (hops id : ℕ) → Timing → M (World hops) ℤ
    handler zero id = sink_bench nanosec
    handler (suc hops) id = relay_bench id (remote_bench p l net what fuel (handler hops (suc id)))

    -- `client.bench(msg)` of `main`: the client's connection is to relay number 0.
    unfoldable pub main_bench : Timing → M (World (suc num_relays)) ℤ
    main_bench = remote_bench p l net what fuel (handler num_relays 0)

-- The clock's reading when the client sends and when the sink receives.
pub record Round : Type 0 where
  pub sent : ℤ
  pub received : ℤ

-- The message of `main`.
unfoldable pub client_message : ℤ → Timing
client_message nanosec = record new_timing {
  msgid = pos 0;
  source = bytes "client";
  nanosec = nanosec;
}

module _ (p : Protocol) (l : Laws p) (net : Network p l) (what : Exception → Bytes) (fuel : ℕ) where
  -- The loop of `main`, a round for each request: 1000 of them. The acknowledgement is not looked
  -- at.
  unfoldable pub main_loop : List Round → M (World p l net (suc num_relays)) (Unit {0})
  main_loop [] = pure tt
  main_loop (r ∷ rounds) =
      main_bench p l net what fuel r.received (client_message r.sent) >>= λ ack. main_loop rounds
