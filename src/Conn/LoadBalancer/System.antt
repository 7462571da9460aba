-- ===== src/Conn/LoadBalancer/System.antt =====
-- The goroutines of a load balancer's connection, interleaved: the sessions that call PushBack, the
-- goroutine of Heartbeat, loopWriter and Run, and loopReader. loopWriter receives a request, sends it
-- and enters it into the table in three steps, between which the others may move. What it defers, the
-- send on hbStop, waits until Heartbeat receives it.
pub mod Kept
pub mod Counters
pub mod Reached
pub mod Atomic
pub mod Stranded
pub mod Results
pub mod LetGo
pub mod Hung
pub mod Examples
use rpc_proxy.Prelude.{
  ℕ, ◌<◌, ◌≡◌, ◌≢◌, Bool, true, false, Option, none, some, List, [], ◌∷◌, length, ◌==◌, ltb, ◌-◌,
  ◌&&◌, update, insert, lookup,
}
use rpc_proxy.Errors.{Error, hb_timeout}
use rpc_proxy.Thrift.{Protocol, message_type_heart_beat}
use rpc_proxy.Framing.{write, flush_buffer}
use rpc_proxy.Framing.Output.{Sink}
use rpc_proxy.Request.{Request, bytes_of, replace_seq_id, decode_thrift_typ_id_seq_id}
use rpc_proxy.Conn.{Conn, Tick, time_out, ping, end, input_capacity, increase, set_response_failed}
use rpc_proxy.Conn.Accounts.{places}
use rpc_proxy.Conn.LoadBalancer.{
  push_back, push_ping, heartbeat, set_response, flush_requests, run_end,
}

-- Where loopWriter and Run stand: at the select, with a request received, with a request sent, after
-- the loop with its result, or at the end.
pub data Writer : Type 0 where
  selecting : Writer
  received : ℕ → Writer
  flushed_out : ℕ → Writer
  left : Option Error → Writer
  over : Writer

-- The request that loopWriter has in hand.
abbrev pub hand : Writer → List ℕ
hand selecting = []
hand (received r) = r ∷ []
hand (flushed_out r) = r ∷ []
hand (left _) = []
hand over = []

-- Where Heartbeat stands: in its select, at its send on hbTimeout, or at its end. Only in the select
-- does it receive from hbStop.
pub data Beat : Type 0 where
  ticking : Beat
  signalling : Beat
  ended : Beat

pub record System (W : Type 0) : Type 0 where
  pub conn : Conn W
  pub writer : Writer
  pub beat : Beat
  -- loopReader runs
  pub reading : Bool

-- `time.Now().Unix()-r.Start > 4` for a heartbeat
abbrev pub expired : ℕ → Request → Bool
expired unix q = q.type_id == message_type_heart_beat && ltb 4 (unix - q.start)

module _ {W : Type 0} where
  -- The end of a round: IncreaseCurrentSeqId, and the entry into the table.
  abbrev pub register : ℕ → Conn W → Conn W
  register r s = record s {
    current_seq_id = increase s.current_seq_id;
    pending = insert (s.requests r).response_seq_id r s.pending;
  }

  -- After FlushBuffer: the loop goes on to enter the request, or fails it and ends.
  abbrev pub after_flush : ℕ → Conn W × Option Error → Option (Conn W × Writer)
  after_flush r (s, none) = some (s, flushed_out r)
  after_flush r (s, some e) = elim (set_response_failed r e s) [
    | none ↦ none
    | some (t, _) ↦ some (t, left (some e))
  ]

module _ (k : Sink) (p : Protocol) where
  open k use {W}

  -- ReplaceSeqId, Write and FlushBuffer
  unfoldable pub send_frame : ℕ → ℕ → ℕ → Conn W → Option (Conn W × Option Error)
  send_frame now later r s = elim (replace_seq_id p s.current_seq_id (s.requests r)) [
    | none ↦ none
    | some q ↦
        let (c, _, _) = write s.transport (bytes_of q.payload) in
        let (d, e) = flush_buffer k c (length s.input == 0) now later in
        some (record s { requests = update s.requests r q; transport = d }, e)
  ]

  -- An answer of the heartbeat's type is under the number of a heartbeat, or of no request.
  abbrev pub HonestAnswer : System W → List ℕ → Type 0
  HonestAnswer s bytes =
      let (type_id, seq_id, _) = decode_thrift_typ_id_seq_id p bytes in
      type_id ≡ message_type_heart_beat
      → (r : ℕ) → lookup seq_id s.conn.pending ≡ some r
      → (s.conn.requests r).type_id ≡ message_type_heart_beat

  -- A step of one of the goroutines. Steps that would panic are left out. What the step relation
  -- takes for granted of the others stands as a premise: requests from sessions are no heartbeats, a
  -- ping has an address of its own, the current number is not in use, and a worker gives the answer to
  -- a heartbeat under a heartbeat's number.
  pub data Step (s : System W) : System W → Type 0 where
    push :
        {t : Conn W} (r : ℕ)
        → (s.conn.requests r).type_id ≢ message_type_heart_beat
        → length s.conn.input < input_capacity
        → s.conn.input_closed ≡ false
        → push_back r s.conn ≡ some t
        → Step s (record s { conn = t })
    tick_ping :
        {t : Conn W} (now fresh : ℕ)
        → s.beat ≡ ticking
        → heartbeat now s.conn ≡ ping
        → places (hand s.writer) s.conn fresh ≡ 0
        → length s.conn.input < input_capacity
        → s.conn.input_closed ≡ false
        → push_ping p now fresh s.conn ≡ some t
        → Step s (record s { conn = t })
    tick_end :
        (now : ℕ)
        → s.beat ≡ ticking
        → heartbeat now s.conn ≡ end
        → Step s (record s { beat = ended })
    tick_late :
        (now : ℕ)
        → s.beat ≡ ticking
        → heartbeat now s.conn ≡ time_out
        → Step s (record s { beat = signalling })
    -- loopWriter receives from hbTimeout; Heartbeat breaks its loop.
    tick_time_out :
        s.beat ≡ signalling
        → s.writer ≡ selecting
        → Step s (record s { writer = left (some hb_timeout); beat = ended })
    receive :
        (r : ℕ) (rest : List ℕ)
        → s.writer ≡ selecting
        → s.conn.input ≡ r ∷ rest
        → Step s (record s { conn = record s.conn { input = rest }; writer = received r })
    closed :
        s.writer ≡ selecting
        → s.conn.input ≡ []
        → s.conn.input_closed ≡ true
        → Step s (record s { writer = left none })
    skip :
        (unix r : ℕ)
        → s.writer ≡ received r
        → expired unix (s.conn.requests r) ≡ true
        → Step s (record s { writer = selecting })
    send :
        {t u : Conn W} {e : Option Error} {w : Writer} (unix now later r : ℕ)
        → s.writer ≡ received r
        → expired unix (s.conn.requests r) ≡ false
        → send_frame now later r s.conn ≡ some (t, e)
        → after_flush r (t, e) ≡ some (u, w)
        → Step s (record s { conn = u; writer = w })
    enter :
        (r : ℕ)
        → s.writer ≡ flushed_out r
        → lookup (s.conn.requests r).response_seq_id s.conn.pending ≡ none
        → Step s (record s { conn = register r s.conn; writer = selecting })
    -- The deferred send on hbStop is received, and Run goes on behind loopWriter.
    finish :
        {t : Conn W} (e : Option Error)
        → s.beat ≡ ticking
        → s.writer ≡ left e
        → run_end e s.conn ≡ some t
        → Step s (record s { conn = t; writer = over; beat = ended })
    read :
        {t : Conn W} {e : Option Error} (now : ℕ) (bytes : List ℕ)
        → s.reading ≡ true
        → HonestAnswer s bytes
        → set_response p now bytes s.conn ≡ some (t, e)
        → Step s (record s { conn = t })
    break :
        {t : Conn W} (e : Error)
        → s.reading ≡ true
        → flush_requests e s.conn ≡ some t
        → Step s (record s { conn = t; reading = false })

  pub data Reach (s : System W) : System W → Type 0 where
    here : Reach s s
    next : {t u : System W} → Reach s t → Step t u → Reach s u
