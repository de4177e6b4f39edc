-- ===== src/Thrift/Concurrent/Receiving.antt =====
-- How recv_bench of a thread ends when its own message is the next one, and what its sentry leaves.
use ros2_pubsub_benchmark.Prelude.{
  ℕ, suc, ◌+◌, ◌≤◌, ◌<◌, ◌≡◌, refl, ap, List, ◌∷◌, ◌++◌, true, false, some, none,
}
use ros2_pubsub_benchmark.Prelude.Int.{ℤ}
use ros2_pubsub_benchmark.Prelude.Bytes.{bytes, same_bytes}
use ros2_pubsub_benchmark.Effect.{Exception, threw}
use ros2_pubsub_benchmark.Thrift.Protocol.{Protocol, Laws}
use ros2_pubsub_benchmark.Thrift.Protocol.Rules.{
  Runs, Runs-bind, Runs-pure, Runs-eq, Throws, Throws-bind,
}
use ros2_pubsub_benchmark.Thrift.Protocol.Wire.{
  MessageType, Token, Fields, View, fields_tokens, fields_height, fields_width,
}
use ros2_pubsub_benchmark.Thrift.Zoom.{on_second, Runs-on_first, Runs-on_second, Throws-on_first}
use ros2_pubsub_benchmark.Thrift.Fields.Loop.{store_all}
use ros2_pubsub_benchmark.Thrift.Structs.{new_presult}
use ros2_pubsub_benchmark.Thrift.Structs.Codec.{store_presult, presult_read-Runs}
use ros2_pubsub_benchmark.Thrift.Client.{missing_result}
use ros2_pubsub_benchmark.Thrift.Client.Calls.{end_message-Runs}
use ros2_pubsub_benchmark.Thrift.Concurrent.{
  Header, Sync, failure, Shared, own_message, handle_message, recv_round, recv_loop,
  concurrent_recv,
}
use ros2_pubsub_benchmark.Thrift.Concurrent.Rounds.{SyncView, SyncLaws, without, shared_view}
use ros2_pubsub_benchmark.Thrift.Concurrent.Threads.{eq_int64_self}

module _ (p : Protocol) (l : Laws p) (y : Sync p) (k : SyncLaws p y) (v : View) (u : SyncView)
    (good : u.stopped ≡ false) (none_read : u.pending ≡ none) (rounds fuel : ℕ) (seqid : ℤ)
    (ts : List Token) where
  -- The thread's header is the next one.
  abbrev next_own : MessageType → List Token → View × SyncView
  next_own kind body = (record v { incoming = Token.message (bytes "bench") kind seqid ∷ body }, u)

  abbrev in_hands : List Token → View × SyncView
  in_hands body = (record v { incoming = body }, record u { pending = none })

  abbrev own_header : MessageType → Header
  own_header kind = (bytes "bench", kind, seqid)

  handle_message-failure :
      (x : Exception)
      → Runs
          (shared_view p l y k)
          (handle_message p y fuel seqid (own_header MessageType.exception))
          (in_hands (Token.fault x ∷ ts))
          (some (failure x))
          (in_hands ts)
  unfolding handle_message own_message
  handle_message-failure x = rw (eq_int64_self seqid) (
      Runs-on_first l.view k.view _ (
        Runs-bind _ (l.read_exception_runs v x ts)
          (Runs-bind _ (end_message-Runs p l _) (Runs-pure _ _))))

  handle_message-missing :
      (fs : Fields)
      → fields_width fs < fuel
      → v.input_depth + suc (fields_height fs) ≤ l.limit
      → store_all store_presult fs new_presult ≡ new_presult
      → Throws
          (shared_view p l y k)
          (handle_message p y fuel seqid (own_header MessageType.reply))
          (in_hands (fields_tokens fs ++ ts))
          missing_result
          (in_hands ts)
  unfolding handle_message own_message same_bytes
  handle_message-missing fs enough fits e = rw (eq_int64_self seqid) (
      Throws-on_first l.view k.view _ (
        Throws-bind _ (presult_read-Runs p l fs fuel ts v new_presult enough fits)
          (rw e (Throws-bind _ (end_message-Runs p l _) (record { run = λ s h. (s, refl, h) })))))

  nothing_pending :
      (w : View)
      → Runs
          (shared_view p l y k)
          (on_second y.get_pending)
          (w, u)
          none
          (w, record u { pending = none })
  nothing_pending w =
      Runs-on_second l.view k.view w (Runs-eq (k.get_pending_runs u good) none_read refl)

  round-failure :
      (x : Exception)
      → Runs
          (shared_view p l y k)
          (recv_round p y fuel seqid)
          (next_own MessageType.exception (Token.fault x ∷ ts))
          (some (failure x))
          (in_hands ts)
  unfolding recv_round
  round-failure x = Runs-bind _ (nothing_pending _) (
      Runs-bind (handle_message p y fuel seqid)
        (Runs-on_first l.view k.view _ (l.read_message_begin_runs v _ _ _ _))
        (handle_message-failure x))

  round-missing :
      (fs : Fields)
      → fields_width fs < fuel
      → v.input_depth + suc (fields_height fs) ≤ l.limit
      → store_all store_presult fs new_presult ≡ new_presult
      → Throws
          (shared_view p l y k)
          (recv_round p y fuel seqid)
          (next_own MessageType.reply (fields_tokens fs ++ ts))
          missing_result
          (in_hands ts)
  unfolding recv_round
  round-missing fs enough fits e = Throws-bind _ (nothing_pending _) (
      Throws-bind (handle_message p y fuel seqid)
        (Runs-on_first l.view k.view _ (l.read_message_begin_runs v _ _ _ _))
        (handle_message-missing fs enough fits e))

  -- If no header is pending, no thread has left the connection in a bad state, and the next message
  -- is an exception message with the sequence number of the thread's own call, then recv_bench of
  -- BenchConcurrentClient takes it off the wire and throws the exception that it carries. The
  -- sequence number is given back, and the connection stays good for the other threads.
  pub concurrent_recv-threw :
      (x : Exception)
      → Throws
          (shared_view p l y k)
          (concurrent_recv p y (suc rounds) fuel seqid)
          (next_own MessageType.exception (Token.fault x ∷ ts))
          x
          (
            record v { incoming = ts },
            record u { pending = none; callers = without seqid u.callers },
          )
  unfolding concurrent_recv recv_loop
  concurrent_recv-threw x =
      Throws-bind _ (Runs-on_second l.view k.view _ (k.begin_recv_runs u seqid)) (record {
        run = λ s e.
            let (s', r, e') = (round-failure x).run s e in
            let here : l.view s'.0 ≡ record v { incoming = ts } =
              ap (λ (q : View × SyncView). q.0) e' in
            let there : k.view s'.1 ≡ record u { pending = none } =
              ap (λ (q : View × SyncView). q.1) e' in
            (
              (s'.0, y.end_recv seqid true s'.1),
              rw r refl,
              cc (here, there, k.end_recv_view s'.1 seqid),
            );
      })

  -- If no header is pending, no thread has left the connection in a bad state, fuel and nesting
  -- suffice, and the next message is the reply to the thread's own call, without a field that sets
  -- the result, then recv_bench of BenchConcurrentClient takes the reply off the wire to its end,
  -- throws MISSING_RESULT, and leaves the connection marked as bad for all threads.
  pub concurrent_recv-missing :
      (fs : Fields)
      → fields_width fs < fuel
      → v.input_depth + suc (fields_height fs) ≤ l.limit
      → store_all store_presult fs new_presult ≡ new_presult
      → (s : Shared p y)
      → shared_view p l y k s ≡ next_own MessageType.reply (fields_tokens fs ++ ts)
      → (s' : Shared p y) × (concurrent_recv p y (suc rounds) fuel seqid s
          ≡ threw missing_result s')
        × (l.view s'.0 ≡ record v { incoming = ts })
        × ((k.view s'.1).stopped ≡ true)
  unfolding concurrent_recv recv_loop
  concurrent_recv-missing fs enough fits e s h =
      let (s0, r0, e0) = (Runs-on_second l.view k.view _ (k.begin_recv_runs u seqid)).run s h in
      let (s', r, e') = (round-missing fs enough fits e).run s0 e0 in
      (
        (s'.0, y.end_recv seqid false s'.1),
        rw (r0, r) refl,
        ap (λ (q : View × SyncView). q.0) e',
        k.end_recv_stopped s'.1 seqid,
      )
