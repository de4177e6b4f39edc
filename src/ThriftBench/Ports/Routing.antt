-- ===== src/ThriftBench/Ports/Routing.antt =====
-- The way of a request through the ports.
use ros2_pubsub_benchmark.Prelude.{
  ℕ, zero, suc, ◌+◌, ◌≤◌, ◌<◌, ◌≡◌, refl, List, ◌++◌, some, arith, ap,
}
use native.Mathlib.Decide.{dec_lt}
use ros2_pubsub_benchmark.Prelude.Int.{ℤ}
use ros2_pubsub_benchmark.Prelude.Bytes.{Bytes}
use ros2_pubsub_benchmark.Effect.{Exception}
use ros2_pubsub_benchmark.Thrift.Protocol.{Protocol, Laws}
use ros2_pubsub_benchmark.Thrift.Remote.{Network, remote_bench}
use ros2_pubsub_benchmark.ThriftBench.Sink.{num_relays}
use ros2_pubsub_benchmark.ThriftBench.Chain.{handler, main_bench}
use ros2_pubsub_benchmark.ThriftBench.Ports.{
  port_of, Handler, relay, sink, Server, relay_servers, main_servers, listening, prepare_all,
  routed,
}

-- A relay's port, among the servers of relays, whatever other servers there are.
listening-relay :
    (left i k : ℕ) (rest : List Server)
    → i ≤ k
    → k < i + left
    → listening (relay_servers left i ++ rest) (port_of k) ≡ some (relay k)
unfolding listening relay_servers port_of
listening-relay zero i k rest low high = absurd (omega arith)
listening-relay (suc left) i k rest low high = ground (arith, listening-relay left (suc i) k rest)

listening-past :
    (left i k : ℕ) (rest : List Server)
    → i + left ≤ k
    → listening (relay_servers left i ++ rest) (port_of k) ≡ listening rest (port_of k)
unfolding listening relay_servers port_of
listening-past zero i k rest high = refl
listening-past (suc left) i k rest high = ground (arith, listening-past left (suc i) k rest)

main_servers-relay : (k : ℕ) → k < num_relays → listening main_servers (port_of k) ≡ some (relay k)
unfolding main_servers
main_servers-relay k h = listening-relay num_relays 0 k _ (omega arith) (omega arith)

main_servers-sink : listening main_servers (port_of num_relays) ≡ some sink
unfolding main_servers listening port_of relay_servers
main_servers-sink = refl

main_servers-any :
    (k : ℕ) → k ≤ num_relays → (h : Handler) × (listening main_servers (port_of k) ≡ some h)
main_servers-any k h = elim (dec_lt k num_relays) [
  | yes below ↦ (relay k, main_servers-relay k below)
  | no above ↦ let last : k ≡ num_relays = omega arith in (sink, rw last main_servers-sink)
]

prepare_all-accepted :
    (left i : ℕ) → i + left ≡ num_relays → prepare_all main_servers left i ≡ some tt
unfolding prepare_all
prepare_all-accepted zero i e = refl
prepare_all-accepted (suc left) i e =
    let (h, accepted) = main_servers-any (i + 1) (omega arith) in
    rw (accepted, prepare_all) (prepare_all-accepted left (suc i) (omega arith))

module _ (p : Protocol) (l : Laws p) (net : Network p l) (what : Exception → Bytes) (fuel : ℕ)
    (nanosec : ℤ) (refused : Exception) where
  routed-handler :
      (hops id : ℕ)
      → id + hops ≡ num_relays
      → routed p l net what fuel nanosec main_servers refused hops (port_of id)
        ≡ handler p l net what fuel nanosec hops id
  unfolding routed handler
  routed-handler zero id e =
      let last : id ≡ num_relays = omega arith in rw (last, main_servers-sink, routed) refl
  routed-handler (suc hops) id e =
      let next : id + 1 ≡ suc id = omega arith in
      rw
        (
          main_servers-relay id (omega arith),
          routed,
          next,
          routed-handler hops (suc id) (omega arith),
        )
        refl

  -- Every relay's connection is accepted when `main` prepares them. A request to the port that the
  -- client connects to takes the way of the chain: each relay's server listens on the port that the
  -- hop before it calls, the 20 relays in their order, and behind the last one the sink's server.
  pub main_servers-routed :
      (prepare_all main_servers num_relays 0 ≡ some tt)
      × (remote_bench p l net what fuel
            (routed p l net what fuel nanosec main_servers refused num_relays (port_of 0))
          ≡ main_bench p l net what fuel nanosec)
  unfolding main_bench
  main_servers-routed = (
    prepare_all-accepted num_relays 0 refl,
    ap (remote_bench p l net what fuel) (routed-handler num_relays 0 refl),
  )
