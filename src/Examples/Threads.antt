-- ===== src/Examples/Threads.antt =====
-- Threads that share a connection.
use ros2_pubsub_benchmark.Prelude.{
  zero, suc, ◌≡◌, refl, Bool, true, false, List, [], ◌∷◌, ◌++◌, arith, none, some, if◌then◌else◌,
}
use ros2_pubsub_benchmark.Prelude.Int.{ℤ, pos, negsuc}
use ros2_pubsub_benchmark.Effect.{protocol, foreign, done, threw}
use ros2_pubsub_benchmark.Thrift.Protocol.Wire.{View, MessageType, Token, end}
use ros2_pubsub_benchmark.Thrift.Protocol.Machine.{token_machine, token_machine-Laws}
use ros2_pubsub_benchmark.Thrift.Protocol.Rules.{Runs, Throws}
use ros2_pubsub_benchmark.Thrift.Remote.Transparent.{idle}
use ros2_pubsub_benchmark.Thrift.Timing.{eq_int64}
use ros2_pubsub_benchmark.Thrift.Concurrent.{
  Sync, Shared, concurrent_send, concurrent_recv, recv_round,
}
use ros2_pubsub_benchmark.Thrift.Concurrent.Rounds.{
  SyncView, SyncLaws, with, without, Reply, stream, shared_view,
}
use ros2_pubsub_benchmark.Prelude.Bytes.{bytes}
use ros2_pubsub_benchmark.Thrift.Client.{missing_result}
use ros2_pubsub_benchmark.Thrift.Concurrent.Receiving.{
  concurrent_recv-threw, concurrent_recv-missing,
}
use ros2_pubsub_benchmark.Thrift.Concurrent.Sending.{numbered_call, concurrent_send-Runs}
use ros2_pubsub_benchmark.Thrift.Concurrent.Threads.{Threads, Turns, here, next, waits}
use ros2_pubsub_benchmark.Thrift.Concurrent.Threads.Delivery.{Turns-in_order}
use ros2_pubsub_benchmark.Examples.{sample_timing}

abbrev successor : ℤ → ℤ
successor (pos n) = pos (suc n)
successor (negsuc zero) = pos 0
successor (negsuc (suc n)) = negsuc n

-- The library's object, as its view.
abbrev sync_machine : Sync token_machine
sync_machine = record {
  State = SyncView;
  generate_seqid = λ s.
      if s.callers s.next
      then threw (protocol 0) s
      else done s.next (record s { next = successor s.next; callers = with s.next s.callers });
  begin_send = λ s. done tt s;
  end_send = λ committed s. if committed then s else record s { stopped = true };
  begin_recv = λ n s. done tt s;
  end_recv = λ n committed s.
      if committed
      then record s { callers = without n s.callers }
      else record s { stopped = true; callers = without n s.callers };
  get_pending =
      λ s. if s.stopped then threw (protocol 0) s else done s.pending (record s { pending = none });
  update_pending = λ h s.
      if s.callers h.2
      then done tt (record s { pending = some h })
      else threw (protocol 0) (record s { stopped = true });
  wait_for_work = λ n s. done tt s;
}

-- It waits for nothing.
wait-same :
    (n : ℤ) (s s' : token_machine.State × SyncView)
    → sync_machine.wait_for_work n s ≡ done tt s'
    → (s'.0 ≡ s.0) × (s'.1 ≡ s.1)
wait-same n s s' e = let same : s ≡ s' = cc (e) in (rw same refl, rw same refl)

abbrev sync_machine-SyncLaws : SyncLaws token_machine sync_machine
sync_machine-SyncLaws = record {
  view = λ s. s;
  generate_seqid_runs = λ v good unused. (
    successor v.next,
    record {
      run = λ s e. (
        record v { next = successor v.next; callers = with v.next v.callers },
        rw (e, unused) refl,
        refl,
      );
    },
  );
  begin_send_runs = λ v. record { run = λ s e. (s, refl, e) };
  end_send_view = λ s. refl;
  begin_recv_runs = λ v n. record { run = λ s e. (s, refl, e) };
  end_recv_view = λ s n. refl;
  end_recv_stopped = λ s n. refl;
  get_pending_runs =
      λ v good. record { run = λ s e. (record v { pending = none }, rw (e, good) refl, refl) };
  update_pending_runs = λ v h waited. record {
    run = λ s e. (record v { pending = some h }, rw (e, waited) refl, refl);
  };
  wait_for_work_view = wait-same;
}

abbrev waiting : ℤ → Bool
waiting = with (pos 1) (with (pos 2) (λ n. false))

abbrev two_waiting : SyncView
two_waiting = record { next = pos 3; pending = none; callers = waiting; stopped = false }

concurrent_send-Runs_example :
    (n : ℤ) × Runs
      (shared_view token_machine token_machine-Laws sync_machine sync_machine-SyncLaws)
      (concurrent_send token_machine sync_machine sample_timing)
      (idle, two_waiting)
      (pos 3)
      (
        record idle { sent = numbered_call (pos 3) sample_timing },
        record two_waiting { next = n; callers = with (pos 3) waiting },
      )
unfolding eq_int64
concurrent_send-Runs_example =
    concurrent_send-Runs token_machine token_machine-Laws sync_machine sync_machine-SyncLaws idle
      two_waiting sample_timing (omega arith) refl refl

-- The second call is answered first.
abbrev replies : List Reply
replies = record { seqid = pos 2; value = pos 20 } ∷ record { seqid = pos 1; value = pos 10 } ∷ []

abbrev ThreadsHere : Type 0
ThreadsHere = Threads token_machine token_machine-Laws sync_machine sync_machine-SyncLaws 2

abbrev both_called : ThreadsHere
both_called = record {
  shared = (record idle { incoming = stream replies }, two_waiting);
  received = [];
}

abbrev TurnsFromStart : ThreadsHere → Type 0
TurnsFromStart =
    Turns token_machine token_machine-Laws sync_machine sync_machine-SyncLaws 2 both_called

-- The thread of call 1 takes the first turn and meets the header of the answer to call 2.
abbrev first_waits : ThreadsHere
first_waits = record {
  shared = (elim (recv_round token_machine sync_machine 2 (pos 1) both_called.shared) [
    | done a s ↦ s
    | _ ↦ both_called.shared
  ]);
  received = [];
}

first_waits-reached : TurnsFromStart first_waits
unfolding recv_round
first_waits-reached =
    next here (waits (pos 1) first_waits.shared first_waits.shared refl (λ e. cc (e)) refl refl)

Turns-in_order_example : (rest : List Reply) × (first_waits.received ++ rest ≡ replies)
unfolding eq_int64
Turns-in_order_example =
    Turns-in_order token_machine token_machine-Laws sync_machine sync_machine-SyncLaws 2
      (omega arith) idle two_waiting (omega arith) refl replies both_called refl refl
      ((refl, tt), (tt, tt)) (refl, (refl, tt)) first_waits first_waits-reached

abbrev own_next : MessageType → List Token → View
own_next kind body = record idle { incoming = Token.message (bytes "bench") kind (pos 1) ∷ body }

concurrent_recv-threw_example :
    Throws
      (shared_view token_machine token_machine-Laws sync_machine sync_machine-SyncLaws)
      (concurrent_recv token_machine sync_machine 1 2 (pos 1))
      (own_next MessageType.exception (Token.fault (foreign 2) ∷ stream replies), two_waiting)
      (foreign 2)
      (
        record idle { incoming = stream replies },
        record two_waiting { callers = without (pos 1) waiting },
      )
concurrent_recv-threw_example =
    concurrent_recv-threw token_machine token_machine-Laws sync_machine sync_machine-SyncLaws idle
      two_waiting refl refl 0 2 (pos 1) (stream replies) (foreign 2)

-- A reply without a field, and the replies to others behind it.
abbrev empty_reply : Shared token_machine sync_machine
empty_reply = (own_next MessageType.reply (Token.stop ∷ stream replies), two_waiting)

concurrent_recv-missing_example :
    (s : Shared token_machine sync_machine) × (concurrent_recv token_machine sync_machine 1 2
        (pos 1)
        empty_reply
      ≡ threw missing_result s)
    × (s.0 ≡ record idle { incoming = stream replies })
    × (s.1.stopped ≡ true)
concurrent_recv-missing_example =
    concurrent_recv-missing token_machine token_machine-Laws sync_machine sync_machine-SyncLaws idle
      two_waiting refl refl 0 2 (pos 1) (stream replies) end (omega arith) (omega arith) refl
      empty_reply refl
