-- ===== src/Thrift/Concurrent/Sending.antt =====
-- The calls of the threads.
use ros2_pubsub_benchmark.Prelude.{
  suc, ◌<◌, ◌≡◌, refl, ap, List, [], ◌∷◌, ◌++◌, append_assoc, true, false,
}
use ros2_pubsub_benchmark.Prelude.Int.{ℤ}
use ros2_pubsub_benchmark.Prelude.Bytes.{bytes}
use ros2_pubsub_benchmark.Effect.{M}
use ros2_pubsub_benchmark.Thrift.Protocol.{Protocol, Laws}
use ros2_pubsub_benchmark.Thrift.Protocol.Rules.{Runs, Runs-bind, Runs-pure, Runs-eq}
use ros2_pubsub_benchmark.Thrift.Protocol.Wire.{MessageType, Token, View, fields_tokens}
use ros2_pubsub_benchmark.Thrift.Zoom.{Runs-on_first, Runs-on_second}
use ros2_pubsub_benchmark.Thrift.Timing.{Timing}
use ros2_pubsub_benchmark.Thrift.Structs.Writes.{args_fields, pargs_write-Runs}
use ros2_pubsub_benchmark.Thrift.Concurrent.{Sync, Shared, send_call, settle_send, concurrent_send}
use ros2_pubsub_benchmark.Thrift.Concurrent.Rounds.{SyncView, SyncLaws, shared_view, with}

-- A call on the wire under a sequence number.
abbrev pub numbered_call : ℤ → Timing → List Token
numbered_call n t = Token.message (bytes "bench") MessageType.call n ∷ fields_tokens (args_fields t)

module _ (p : Protocol) (l : Laws p) (y : Sync p) (k : SyncLaws p y) where
  send_call-Runs :
      (v : View) (n : ℤ) (t : Timing)
      → suc v.output_depth < l.limit
      → Runs l.view
          (send_call p n t)
          v
          tt
          (record v { outgoing = []; sent = v.sent ++ (v.outgoing ++ numbered_call n t) })
  unfolding send_call
  send_call-Runs v n t fits =
      Runs-eq
        (Runs-bind _ (l.write_message_begin_runs _ _ _ _) (
          Runs-bind _ (pargs_write-Runs p l _ t fits) (
            Runs-bind _ (l.write_message_end_runs _)
              (Runs-bind _ (l.transport_write_end_runs _).1 (l.transport_flush_runs _)))))
        refl (simp append_assoc)

  settle_send-Runs :
      {m : M (Shared p y) (Unit {0})} {v w : View} {u u' : SyncView}
      → Runs (shared_view p l y k) m (v, u) tt (w, u')
      → Runs (shared_view p l y k) (λ s. settle_send p y (m s)) (v, u) tt (w, u')
  settle_send-Runs {w} {u'} h = record {
    run = λ s e.
        let (s', r, e') = h.run s e in
        let here : l.view s'.0 ≡ w = ap (λ (q : View × SyncView). q.0) e' in
        let there : k.view s'.1 ≡ u' = ap (λ (q : View × SyncView). q.1) e' in
        (
          (s'.0, y.end_send true s'.1),
          rw (r, settle_send) refl,
          cc (here, there, k.end_send_view s'.1),
        );
  }

  -- If the nesting fits, no thread has left the connection in a bad state and the next sequence
  -- number is not in use, BenchConcurrentClient::send_bench returns this number, has it registered
  -- for its thread, and flushes one call of `bench` under it, behind what was waiting.
  pub concurrent_send-Runs :
      (v : View) (u : SyncView) (t : Timing)
      → suc v.output_depth < l.limit
      → u.stopped ≡ false
      → u.callers u.next ≡ false
      → (n : ℤ) × Runs
          (shared_view p l y k)
          (concurrent_send p y t)
          (v, u)
          u.next
          (
            record v { outgoing = []; sent = v.sent ++ (v.outgoing ++ numbered_call u.next t) },
            record u { next = n; callers = with u.next u.callers },
          )
  unfolding concurrent_send
  concurrent_send-Runs v u t fits good unused =
      let (n, made) = k.generate_seqid_runs u good unused in
      (
        n,
        Runs-bind _ (Runs-on_second l.view k.view _ made) (
            Runs-bind _ (Runs-on_second l.view k.view _ (k.begin_send_runs _)) (
              Runs-bind _
                (settle_send-Runs (Runs-on_first l.view k.view _ (send_call-Runs v u.next t fits)))
                (Runs-pure _ _))),
      )
