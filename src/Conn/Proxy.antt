-- ===== src/Conn/Proxy.antt =====
-- proxy/backend_conn_proxy.go: the proxy's connection to a server, which the proxy opens again and
-- again until the server is marked offline.
pub mod Release
pub mod System
use rpc_proxy.Prelude.{
  ℕ, ◌-◌, ◌*◌, Bool, true, false, Option, none, some, List, [], ◌∷◌, ltb, if◌then◌else◌, update,
  not,
}
use rpc_proxy.Errors.{Error}
use rpc_proxy.Thrift.{Protocol}
use rpc_proxy.Framing.{Transport}
use rpc_proxy.Request.{Request, decode_thrift_typ_id_seq_id, new_ping_request}
use rpc_proxy.Pool.{Pool, state_changed}
use rpc_proxy.Conn.{
  Conn, Tick, time_out, ping, end, backend_conn_min_seq_id, hb_timeout_seconds, done, answer,
  enqueue, drain,
}

module _ {W : Type 0} where
  -- NewBackendConn: not active until it is connected
  abbrev pub new : ℕ → List ℕ → Bool → Pool → (ℕ → Request) → Transport W → Conn W
  new self service verbose pool requests transport = record {
    self = self;
    service_name = service;
    verbose = verbose;
    pool = record pool {
      index = update pool.index self none;
      is_conn_active = update pool.is_conn_active self false;
    };
    requests = requests;
    input = [];
    input_closed = false;
    pending = [];
    current_seq_id = backend_conn_min_seq_id;
    hb_last_time = 0;
    is_mark_offline = false;
    transport = transport;
  }

  -- bc.IsConnActive.Set(b), then StateChanged of the service
  unfoldable pub set_active : Bool → Conn W → Option (Conn W)
  set_active b s =
      let pool = record s.pool { is_conn_active = update s.pool.is_conn_active s.self b } in
      elim (state_changed s.self pool) [ none ↦ none | some q ↦ some (record s { pool = q }) ]

  unfoldable pub mark_conn_active_false : Conn W → Option (Conn W)
  mark_conn_active_false s = if s.pool.is_conn_active s.self then set_active false s else some s

  unfoldable pub mark_conn_active_ok : Conn W → Option (Conn W)
  mark_conn_active_ok s = set_active true s

  -- close(bc.input)
  unfoldable pub close_input : Conn W → Option (Conn W)
  close_input s = if s.input_closed then none else some (record s { input_closed = true })

  unfoldable pub mark_offline : Conn W → Option (Conn W)
  mark_offline s =
      if s.is_mark_offline
      then some s
      else elim (mark_conn_active_false (record s { is_mark_offline = true })) [
        | none ↦ none
        | some t ↦ close_input t
      ]

  unfoldable pub push_back : ℕ → Conn W → Option (Conn W)
  push_back r s = enqueue r s

  -- What Heartbeat does at a tick
  unfoldable pub heartbeat : ℕ → Conn W → Tick
  heartbeat now s =
      if ltb hb_timeout_seconds (now - s.hb_last_time)
      then time_out
      else if s.is_mark_offline
      then end
      else ping

  -- The tick that pings: NewPingRequest at the address `fresh`, and PushBack.
  unfoldable pub push_ping : Protocol → ℕ → ℕ → Conn W → Option (Conn W)
  push_ping p now fresh s =
      push_back fresh (record s { requests = update s.requests fresh (new_ping_request p now) })

  -- setResponse(nil, data, nil), once the header is decoded
  unfoldable pub handle :
      Protocol → ℕ → List ℕ → ℕ × ℕ × Option Error → Conn W → Option (Conn W × Option Error)
  handle p now bytes (type_id, seq_id, some e) s = some (s, some e)
  handle p now bytes (type_id, seq_id, none) s = answer p now type_id seq_id bytes s

  -- setResponse(nil, data, nil), as loopReader calls it for a frame
  unfoldable pub set_response : Protocol → ℕ → List ℕ → Conn W → Option (Conn W × Option Error)
  set_response p now bytes s = handle p now bytes (decode_thrift_typ_id_seq_id p bytes) s

  -- The loop of flushRequests: every request gets the error. Go takes the entries of the map in any
  -- order.
  unfoldable pub fail_all : Error → List (ℕ × ℕ) → Conn W → Option (Conn W)
  fail_all e [] s = some s
  fail_all e ((_, r) ∷ rs) s = elim (done (record (s.requests r) { response_err = some e })) [
    | none ↦ none
    | some q ↦ fail_all e rs (record s { requests = update s.requests r q })
  ]

  unfoldable pub flush_requests : Error → Conn W → Option (Conn W)
  flush_requests e s = elim (mark_conn_active_false s) [
    | none ↦ none
    | some t ↦ fail_all e t.pending (record t { pending = [] })
  ]

  -- Run, once loopWriter has returned: nil ends the loop, an error fails what is queued, and the
  -- loop goes on until the connection is marked offline.
  unfoldable pub run_end : Option Error → Conn W → Option (Conn W × Bool)
  run_end e s = elim (mark_conn_active_false s) [
    | none ↦ none
    | some t ↦ elim e [
      | none ↦ some (t, false)
      | some err ↦ elim (drain err t.input t) [
        | none ↦ none
        | some u ↦ some (u, not u.is_mark_offline)
      ]
    ]
  ]

-- ensureConn: the pauses between attempts to open the socket, in seconds.
abbrev pub next_interval : ℕ → ℕ
next_interval n = if ltb n 4 then n * 2 else n

-- The loop of ensureConn over the answers of Open and the readings of IsMarkOffline, one of each for
-- an attempt: the pauses made, and the last answer.
unfoldable pub open_loop : ℕ → Option Error → List (Bool × Option Error) → List ℕ × Option Error
open_loop interval none rest = ([], none)
open_loop interval (some e) [] = ([], some e)
open_loop interval (some e) ((offline, next) ∷ rest) =
    let more = open_loop (next_interval interval) next rest in
    if offline then ([], some e) else (interval ∷ more.0, more.1)
