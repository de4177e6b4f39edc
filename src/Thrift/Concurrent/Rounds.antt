-- ===== src/Thrift/Concurrent/Rounds.antt =====
-- A round of a receiving thread against the replies on the wire.
use ros2_pubsub_benchmark.Prelude.{
  ℕ, ◌+◌, ◌≤◌, ◌<◌, ◌≡◌, List, [], ◌∷◌, ◌++◌, Bool, true, false, Option, some, none, arith,
  if◌then◌else◌,
}
use ros2_pubsub_benchmark.Prelude.Int.{ℤ, pos}
use ros2_pubsub_benchmark.Prelude.Bytes.{bytes, same_bytes}
use ros2_pubsub_benchmark.Effect.{done}
use ros2_pubsub_benchmark.Thrift.Protocol.{Protocol, Laws}
use ros2_pubsub_benchmark.Thrift.Protocol.Rules.{Runs, Runs-bind, Runs-pure}
use ros2_pubsub_benchmark.Thrift.Protocol.Wire.{
  MessageType, Token, Value, Fields, end, field, View, fields_tokens,
}
use ros2_pubsub_benchmark.Thrift.Zoom.{both, Runs-on_first, Runs-on_second}
use ros2_pubsub_benchmark.Thrift.Timing.{eq_int64}
use ros2_pubsub_benchmark.Thrift.Structs.{new_presult}
use ros2_pubsub_benchmark.Thrift.Structs.Codec.{presult_read-Runs}
use ros2_pubsub_benchmark.Thrift.Client.Calls.{end_message-Runs}
use ros2_pubsub_benchmark.Thrift.Concurrent.{
  Header, Sync, Outcome, answer, Shared, own_message, handle_message, recv_round,
}

-- What the library's object looks like: a message whose header has been read for another thread,
-- the next sequence number to give out, which ones threads wait for, and whether a thread has left
-- the connection in a bad state.
pub record SyncView : Type 0 where
  pub next : ℤ
  pub pending : Option Header
  pub callers : ℤ → Bool
  pub stopped : Bool

abbrev pub without : ℤ → (ℤ → Bool) → ℤ → Bool
without n callers x = if eq_int64 x n then false else callers x

abbrev pub with : ℤ → (ℤ → Bool) → ℤ → Bool
with n callers x = if eq_int64 x n then true else callers x

-- The documented behaviour of TConcurrentClientSyncInfo.
pub record SyncLaws (p : Protocol) (y : Sync p) : Type 0 where
  pub view : y.State → SyncView
  pub generate_seqid_runs :
      (v : SyncView)
      → v.stopped ≡ false
      → v.callers v.next ≡ false
      → (n : ℤ) × Runs view y.generate_seqid v v.next
          (record v { next = n; callers = with v.next v.callers })
  pub begin_send_runs : (v : SyncView) → Runs view y.begin_send v tt v
  pub end_send_view : (s : y.State) → view (y.end_send true s) ≡ view s
  pub begin_recv_runs : (v : SyncView) (n : ℤ) → Runs view (y.begin_recv n) v tt v
  pub end_recv_view :
      (s : y.State) (n : ℤ)
      → view (y.end_recv n true s) ≡ record (view s) { callers = without n (view s).callers }
  pub end_recv_stopped : (s : y.State) (n : ℤ) → (view (y.end_recv n false s)).stopped ≡ true
  pub get_pending_runs :
      (v : SyncView)
      → v.stopped ≡ false
      → Runs view y.get_pending v v.pending (record v { pending = none })
  pub update_pending_runs :
      (v : SyncView) (h : Header)
      → v.callers h.2 ≡ true
      → Runs view (y.update_pending h) v tt (record v { pending = some h })
  -- What other threads do while a thread waits is theirs.
  pub wait_for_work_view :
      (n : ℤ) (s s' : p.State × y.State)
      → y.wait_for_work n s ≡ done tt s'
      → (s'.0 ≡ s.0) × (view s'.1 ≡ view s.1)

pub record Reply : Type 0 where
  pub seqid : ℤ
  pub value : ℤ

abbrev pub reply_fields : ℤ → Fields
reply_fields x = field (pos 0) (Value.i64 x) end

abbrev pub header_of : ℤ → Header
header_of seqid = (bytes "bench", MessageType.reply, seqid)

-- The replies on the wire.
abbrev pub stream : List Reply → List Token
stream [] = []
stream (r ∷ rs) =
    Token.message (bytes "bench") MessageType.reply r.seqid
    ∷ (fields_tokens (reply_fields r.value) ++ stream rs)

module _ (p : Protocol) (l : Laws p) (y : Sync p) (k : SyncLaws p y) where
  abbrev pub shared_view : Shared p y → View × SyncView
  shared_view = both l.view k.view

  -- No header has been read, or that of the first reply has.
  abbrev pub untouched : View → SyncView → List Reply → View × SyncView
  untouched v u rs = (record v { incoming = stream rs }, record u { pending = none })

  abbrev pub taken : View → SyncView → Reply → List Reply → View × SyncView
  taken v u r rs = (
    record v { incoming = fields_tokens (reply_fields r.value) ++ stream rs },
    record u { pending = some (header_of r.seqid) },
  )

  -- The header is in a thread's hands.
  abbrev pub read_on : View → SyncView → Reply → List Reply → View × SyncView
  read_on v u r rs = (
    record v { incoming = fields_tokens (reply_fields r.value) ++ stream rs },
    record u { pending = none },
  )

  own_message-Runs :
      (v : View) (fuel : ℕ) (seqid x : ℤ) (ts : List Token)
      → 1 < fuel
      → v.input_depth + 2 ≤ l.limit
      → Runs l.view
          (own_message p fuel (header_of seqid))
          (record v { incoming = fields_tokens (reply_fields x) ++ ts })
          (some (answer x))
          (record v { incoming = ts })
  unfolding own_message same_bytes
  own_message-Runs v fuel seqid x ts enough fits =
      Runs-bind _
        (presult_read-Runs p l (reply_fields x) fuel ts v new_presult (omega arith) (omega arith))
        (Runs-bind _ (end_message-Runs p l _) (Runs-pure _ _))

  module _ (v : View) (u : SyncView) (fuel : ℕ) (enough : 1 < fuel)
      (fits : v.input_depth + 2 ≤ l.limit) (good : u.stopped ≡ false) where
    -- A round from either state, up to the point where the header is in the thread's hands.
    pub round-untouched :
        (seqid : ℤ) (r : Reply) (rs : List Reply) {a : Option Outcome} {w : View × SyncView}
        → Runs shared_view
            (handle_message p y fuel seqid (header_of r.seqid))
            (read_on v u r rs)
            a
            w
        → Runs shared_view (recv_round p y fuel seqid) (untouched v u (r ∷ rs)) a w
    unfolding recv_round
    round-untouched seqid r rs h =
        Runs-bind _
          (Runs-on_second l.view k.view _ (k.get_pending_runs (record u { pending = none }) good))
          (Runs-bind (handle_message p y fuel seqid)
            (Runs-on_first l.view k.view _ (l.read_message_begin_runs v _ _ _ _)) h)

    pub round-taken :
        (seqid : ℤ) (r : Reply) (rs : List Reply) {a : Option Outcome} {w : View × SyncView}
        → Runs shared_view
            (handle_message p y fuel seqid (header_of r.seqid))
            (read_on v u r rs)
            a
            w
        → Runs shared_view (recv_round p y fuel seqid) (taken v u r rs) a w
    unfolding recv_round
    round-taken seqid r rs h =
        Runs-bind _
          (Runs-on_second l.view k.view _
            (k.get_pending_runs (record u { pending = some (header_of r.seqid) }) good))
          (Runs-bind (handle_message p y fuel seqid) (Runs-pure (header_of r.seqid) _) h)

    pub handle_message-own :
        (r : Reply) (rs : List Reply)
        → eq_int64 r.seqid r.seqid ≡ true
        → Runs shared_view
            (handle_message p y fuel r.seqid (header_of r.seqid))
            (read_on v u r rs)
            (some (answer r.value))
            (untouched v u rs)
    unfolding handle_message
    handle_message-own r rs same = rw same (
        Runs-on_first l.view k.view _
          (own_message-Runs v fuel r.seqid r.value (stream rs) enough fits))

    pub handle_message-other :
        (seqid : ℤ) (r : Reply) (rs : List Reply)
        → eq_int64 seqid r.seqid ≡ false
        → u.callers r.seqid ≡ true
        → Runs shared_view
            (handle_message p y fuel seqid (header_of r.seqid))
            (read_on v u r rs)
            none
            (taken v u r rs)
    unfolding handle_message
    handle_message-other seqid r rs differs waited = rw differs (
        Runs-bind _
          (Runs-on_second l.view k.view _
            (k.update_pending_runs (record u { pending = none }) (header_of r.seqid) waited))
          (Runs-pure _ _))
