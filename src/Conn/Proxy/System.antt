-- ===== src/Conn/Proxy/System.antt =====
-- The goroutines of a proxy's connection, interleaved: the sessions that call PushBack, the
-- goroutine of Heartbeat, MarkOffline, Run with loopWriter, and the loopReaders. Run opens the connection
-- again after a failure and starts a new loopReader; an old one goes on until its own transport fails.
-- The send on hbStop that loopWriter defers waits until Heartbeat receives it.
pub mod Counters
pub mod Reached
pub mod Apart
pub mod Silenced
pub mod Late
mod Examples
use rpc_proxy.Prelude.{
  ℕ, suc, ◌<◌, ◌≡◌, ◌≢◌, Bool, true, false, Option, none, some, List, [], ◌∷◌, length, lookup,
  if◌then◌else◌,
}
use rpc_proxy.Errors.{Error, hb_timeout}
use rpc_proxy.Thrift.{Protocol, message_type_heart_beat}
use rpc_proxy.Framing.{Transport}
use rpc_proxy.Framing.Output.{Sink}
use rpc_proxy.Request.{Request, decode_thrift_typ_id_seq_id}
use rpc_proxy.Conn.{Conn, Tick, time_out, ping, end, input_capacity}
use rpc_proxy.Conn.Accounts.{places}
use rpc_proxy.Conn.LoadBalancer.System.{
  Writer, selecting, received, flushed_out, left, hand, Beat, ticking, signalling, ended, expired,
  register, after_flush, send_frame,
}
use rpc_proxy.Conn.Proxy.{
  push_back, push_ping, heartbeat, mark_conn_active_ok, mark_offline, set_response, flush_requests,
  run_end,
}

-- Where Run stands: in ensureConn, in or just after loopWriter, or at its end.
pub data Phase : Type 0 where
  opening : Phase
  looping : Writer → Phase
  stopped : Phase

abbrev pub in_hand : Phase → List ℕ
in_hand opening = []
in_hand (looping w) = hand w
in_hand stopped = []

pub record System (W : Type 0) : Type 0 where
  pub conn : Conn W
  pub phase : Phase
  pub beat : Beat
  -- the loopReaders that run
  pub readers : ℕ

module _ (k : Sink) (p : Protocol) where
  open k use {W}

  -- An answer of the heartbeat's type is under the number of a heartbeat, or of no request.
  abbrev pub HonestAnswer : Conn W → List ℕ → Type 0
  HonestAnswer s bytes =
      let (type_id, seq_id, _) = decode_thrift_typ_id_seq_id p bytes in
      type_id ≡ message_type_heart_beat
      → (r : ℕ) → lookup seq_id s.pending ≡ some r
      → (s.requests r).type_id ≡ message_type_heart_beat

  -- A step of one of the goroutines. Steps that would panic are left out. What the step relation
  -- takes for granted of the others stands as a premise: requests from sessions are no heartbeats, a
  -- ping has an address of its own, the current number is not in use, and a server gives the answer to
  -- a heartbeat under a heartbeat's number.
  pub data Step (s : System W) : System W → Type 0 where
    push :
        {t : Conn W} (r : ℕ)
        → (s.conn.requests r).type_id ≢ message_type_heart_beat
        → length s.conn.input < input_capacity
        → s.conn.input_closed ≡ false
        → push_back r s.conn ≡ some t
        → Step s (record s { conn = t })
    tick_ping :
        {t : Conn W} (now fresh : ℕ)
        → s.beat ≡ ticking
        → heartbeat now s.conn ≡ ping
        → places (in_hand s.phase) s.conn fresh ≡ 0
        → length s.conn.input < input_capacity
        → s.conn.input_closed ≡ false
        → push_ping p now fresh s.conn ≡ some t
        → Step s (record s { conn = t })
    offline : {t : Conn W} → mark_offline s.conn ≡ some t → Step s (record s { conn = t })
    -- ensureConn has opened a transport, and loopWriter begins.
    connect :
        {t : Conn W} (now : ℕ) (c : Transport W)
        → s.phase ≡ opening
        → mark_conn_active_ok s.conn ≡ some t
        → Step s (record s {
          conn = record t { transport = c; hb_last_time = now };
          phase = looping selecting;
          beat = ticking;
          readers = suc s.readers;
        })
    -- ensureConn answers an error.
    give_up : s.phase ≡ opening → Step s (record s { phase = stopped })
    tick_end :
        (now : ℕ)
        → s.beat ≡ ticking
        → heartbeat now s.conn ≡ end
        → Step s (record s { beat = ended })
    tick_late :
        (now : ℕ)
        → s.beat ≡ ticking
        → heartbeat now s.conn ≡ time_out
        → Step s (record s { beat = signalling })
    -- loopWriter receives from hbTimeout; Heartbeat breaks its loop.
    tick_time_out :
        s.beat ≡ signalling
        → s.phase ≡ looping selecting
        → Step s (record s { phase = looping (left (some hb_timeout)); beat = ended })
    receive :
        (r : ℕ) (rest : List ℕ)
        → s.phase ≡ looping selecting
        → s.conn.input ≡ r ∷ rest
        → Step s (record s { conn = record s.conn { input = rest }; phase = looping (received r) })
    closed :
        s.phase ≡ looping selecting
        → s.conn.input ≡ []
        → s.conn.input_closed ≡ true
        → Step s (record s { phase = looping (left none) })
    skip :
        (unix r : ℕ)
        → s.phase ≡ looping (received r)
        → expired unix (s.conn.requests r) ≡ true
        → Step s (record s { phase = looping selecting })
    send :
        {t u : Conn W} {e : Option Error} {w : Writer} (unix now later r : ℕ)
        → s.phase ≡ looping (received r)
        → expired unix (s.conn.requests r) ≡ false
        → send_frame k p now later r s.conn ≡ some (t, e)
        → after_flush r (t, e) ≡ some (u, w)
        → Step s (record s { conn = u; phase = looping w })
    enter :
        (r : ℕ)
        → s.phase ≡ looping (flushed_out r)
        → lookup (s.conn.requests r).response_seq_id s.conn.pending ≡ none
        → Step s (record s { conn = register r s.conn; phase = looping selecting })
    -- The deferred send on hbStop is received, and Run goes on behind loopWriter.
    finish :
        {t : Conn W} {again : Bool} (e : Option Error)
        → s.beat ≡ ticking
        → s.phase ≡ looping (left e)
        → run_end e s.conn ≡ some (t, again)
        → Step s (record s { conn = t; phase = if again then opening else stopped; beat = ended })
    read :
        {t : Conn W} {e : Option Error} (now n : ℕ) (bytes : List ℕ)
        → s.readers ≡ suc n
        → HonestAnswer s.conn bytes
        → set_response p now bytes s.conn ≡ some (t, e)
        → Step s (record s { conn = t })
    break :
        {t : Conn W} (n : ℕ) (e : Error)
        → s.readers ≡ suc n
        → flush_requests e s.conn ≡ some t
        → Step s (record s { conn = t; readers = n })

  pub data Reach (s : System W) : System W → Type 0 where
    here : Reach s s
    next : {t u : System W} → Reach s t → Step t u → Reach s u

  -- Steps one after the other while loopWriter has not been left for good: none of them starts in
  -- ensureConn or behind the end of Run.
  pub data During (s : System W) : System W → Type 0 where
    at_once : During s s
    then_step :
        {t u : System W} (w : Writer) → During s t → t.phase ≡ looping w → Step t u → During s u
