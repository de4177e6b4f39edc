-- ===== src/Thrift/Remote/Transparent.antt =====
-- A remote call over an idle connection, against the call of the handler itself: `remote_bench` of
-- Thrift/Remote.antt.
use ros2_pubsub_benchmark.Prelude.{ℕ, ◌≤◌, ◌<◌, ◌≡◌, refl, ap, [], ◌++◌, arith}
use ros2_pubsub_benchmark.Prelude.Int.{ℤ, pos}
use ros2_pubsub_benchmark.Prelude.Bytes.{Bytes}
use ros2_pubsub_benchmark.Effect.{Exception, application, M}
use ros2_pubsub_benchmark.Thrift.Protocol.{Protocol, Laws}
use ros2_pubsub_benchmark.Thrift.Protocol.Rules.{
  Runs, Runs-bind, Throws, Throws-bind, Exits, Exits-bind, Exits-first,
}
use ros2_pubsub_benchmark.Thrift.Protocol.Wire.{View, Value, end, field}
use ros2_pubsub_benchmark.Thrift.Zoom.{
  both, Runs-on_first, Runs-on_second, Throws-on_first, Exits-on_second,
}
use ros2_pubsub_benchmark.Thrift.Timing.{Timing}
use ros2_pubsub_benchmark.Thrift.Timing.Codec.{all_set}
use ros2_pubsub_benchmark.Thrift.Structs.Writes.{args_fields}
use ros2_pubsub_benchmark.Thrift.Client.Calls.{
  send_bench-Runs, recv_bench-returned, recv_bench-threw,
}
use ros2_pubsub_benchmark.Thrift.Processor.Answers.{
  dispatch_call-returned, dispatch_call-caught, dispatch_call-exited,
}
use ros2_pubsub_benchmark.Thrift.Remote.{Network, carry_call, carry_answer, remote_bench}

-- Nothing on the way in either direction, and no call under way.
abbrev pub idle : View
idle = record { incoming = []; outgoing = []; sent = []; input_depth = 0; output_depth = 0 }

-- What the server's handler is given: the caller's values, each marked as set.
abbrev pub delivered : Timing → Timing
delivered t = record t { isset = all_set }

module _ (p : Protocol) (l : Laws p) (net : Network p l) {W V : Type 0} (g : W → V) where
  open p use {State}
  open l use {view, limit, read_message_begin_runs}

  abbrev pub ends : State × (State × W) → View × (View × V)
  ends = both view (both view g)

  carry_call-Runs :
      (v u : View) (w : V)
      → Runs ends
          (carry_call p l net)
          (v, (u, w))
          tt
          (record v { sent = [] }, (record u { incoming = u.incoming ++ v.sent }, w))
  unfolding carry_call
  carry_call-Runs v u w = record {
    run = λ s e.
        let here : view s.0 ≡ v = ap (λ (x : View × (View × V)). x.0) e in
        let there : view s.1.0 ≡ u = ap (λ (x : View × (View × V)). x.1.0) e in
        let world : g s.1.1 ≡ w = ap (λ (x : View × (View × V)). x.1.1) e in
        (_, refl, cc (here, there, world, net.carry_from s.0 s.1.0, net.carry_to s.0 s.1.0));
  }

  carry_answer-Runs :
      (v u : View) (w : V)
      → Runs ends
          (carry_answer p l net)
          (v, (u, w))
          tt
          (record v { incoming = v.incoming ++ u.sent }, (record u { sent = [] }, w))
  unfolding carry_answer
  carry_answer-Runs v u w = record {
    run = λ s e.
        let here : view s.0 ≡ v = ap (λ (x : View × (View × V)). x.0) e in
        let there : view s.1.0 ≡ u = ap (λ (x : View × (View × V)). x.1.0) e in
        let world : g s.1.1 ≡ w = ap (λ (x : View × (View × V)). x.1.1) e in
        (_, refl, cc (here, there, world, net.carry_from s.1.0 s.0, net.carry_to s.1.0 s.0));
  }

  module _ (what : Exception → Bytes) (fuel : ℕ) (iface : Timing → M W ℤ) (arg : Timing)
      (enough : 3 < fuel) (deep : 3 ≤ limit) {w w' : V} where
    -- With fuel above 3 and a nesting limit of at least 3, a remote call over an idle connection
    -- returns what the server's handler returns for the caller's timing with each field marked as
    -- set. The world of the handler is left as the handler leaves it, and the connection is idle
    -- again.
    pub remote_bench-returned :
        (x : ℤ)
        → Runs g (iface (delivered arg)) w x w'
        → Runs ends
            (remote_bench p l net what fuel iface arg)
            (idle, (idle, w))
            x
            (idle, (idle, w'))
    unfolding remote_bench
    remote_bench-returned x h =
        Runs-bind _
          (Runs-on_first view (both view g) _ (send_bench-Runs p l idle arg (omega arith)))
          (Runs-bind _ (carry_call-Runs _ _ _) (
            Runs-bind _
              (Runs-on_second view (both view g) _
                (Runs-on_first view g _ (read_message_begin_runs idle _ _ _ _)))
              (Runs-bind _
                (Runs-on_second view (both view g) _ (
                  dispatch_call-returned p l g what iface idle (args_fields arg) fuel (pos 0) []
                    (omega arith) (omega arith) x h))
                (Runs-bind _ (carry_answer-Runs _ _ _) (
                  Runs-on_first view (both view g) _ (
                    recv_bench-returned p l idle (field (pos 0) (Value.i64 x) end) fuel (pos 0) []
                      (omega arith) (omega arith) x refl))))))

    -- With fuel above 3 and a nesting limit of at least 3, a remote call over an idle connection
    -- whose handler throws an exception throws a TApplicationException of type 0 with the text of
    -- that exception, and leaves the connection idle again.
    pub remote_bench-threw :
        (x : Exception)
        → Throws g (iface (delivered arg)) w x w'
        → Throws ends
            (remote_bench p l net what fuel iface arg)
            (idle, (idle, w))
            (application 0 (what x))
            (idle, (idle, w'))
    unfolding remote_bench
    remote_bench-threw x h =
        Throws-bind _
          (Runs-on_first view (both view g) _ (send_bench-Runs p l idle arg (omega arith)))
          (Throws-bind _ (carry_call-Runs _ _ _) (
            Throws-bind _
              (Runs-on_second view (both view g) _
                (Runs-on_first view g _ (read_message_begin_runs idle _ _ _ _)))
              (Throws-bind _
                (Runs-on_second view (both view g) _ (
                  dispatch_call-caught p l g what iface idle (args_fields arg) fuel (pos 0) []
                    (omega arith) (omega arith) x h))
                (Throws-bind _ (carry_answer-Runs _ _ _) (
                  Throws-on_first view (both view g) _
                    (recv_bench-threw p l idle fuel (pos 0) (application 0 (what x)) []))))))

    -- With fuel above 3 and a nesting limit of at least 3, a remote call over an idle connection
    -- whose handler ends the process ends it too: the call is read, and no answer is on its way.
    pub remote_bench-exited :
        Exits g (iface (delivered arg)) w w'
        → Exits ends (remote_bench p l net what fuel iface arg) (idle, (idle, w)) (idle, (idle, w'))
    unfolding remote_bench
    remote_bench-exited h =
        Exits-bind _
          (Runs-on_first view (both view g) _ (send_bench-Runs p l idle arg (omega arith)))
          (Exits-bind _ (carry_call-Runs _ _ _) (
            Exits-bind _
              (Runs-on_second view (both view g) _
                (Runs-on_first view g _ (read_message_begin_runs idle _ _ _ _)))
              (Exits-first _ (
                Exits-on_second view (both view g) _ (
                  dispatch_call-exited p l g what iface idle (args_fields arg) fuel (pos 0) []
                    (omega arith) (omega arith) h)))))
