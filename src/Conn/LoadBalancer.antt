-- ===== src/Conn/LoadBalancer.antt =====
-- proxy/backend_conn_lb.go: the load balancer's connection to a worker, which the worker opened.
pub mod Release
pub mod System
use rpc_proxy.Prelude.{
  ℕ, ◌-◌, Bool, true, false, Option, none, some, List, [], ◌∷◌, ltb, ◌==◌, if◌then◌else◌, update,
  map,
}
use rpc_proxy.Errors.{Error}
use rpc_proxy.Thrift.{Protocol, message_type_heart_beat, message_type_stop}
use rpc_proxy.Framing.{Transport}
use rpc_proxy.Request.{Request, decode_thrift_typ_id_seq_id, new_ping_request}
use rpc_proxy.Pool.{Pool}
use rpc_proxy.Pool.LoadBalancer.{state_changed}
use rpc_proxy.Conn.{
  Conn, Tick, time_out, ping, end, backend_conn_min_seq_id, hb_timeout_seconds, done, store, answer,
  enqueue, drain,
}

module _ {W : Type 0} where
  -- NewBackendConnLB, over the memory of the requests and the pool that it is made for
  abbrev pub new : ℕ → List ℕ → Bool → Pool → (ℕ → Request) → Transport W → Conn W
  new self service_name verbose pool requests transport = record {
    self = self;
    service_name = service_name;
    verbose = verbose;
    pool = record pool {
      index = update pool.index self none;
      is_conn_active = update pool.is_conn_active self true;
    };
    requests = requests;
    input = [];
    input_closed = false;
    pending = [];
    current_seq_id = backend_conn_min_seq_id;
    hb_last_time = 0;
    is_mark_offline = false;
    transport = transport;
  }

  -- bc.IsConnActive.Set(false)
  abbrev pub deactivated : Conn W → Pool
  deactivated s = record s.pool { is_conn_active = update s.pool.is_conn_active s.self false }

  -- MarkConnActiveFalse, with the service as the delegate
  unfoldable pub mark_conn_active_false : Conn W → Option (Conn W)
  mark_conn_active_false s =
      if s.pool.is_conn_active s.self
      then elim (state_changed s.verbose s.self (deactivated s)) [
        | none ↦ none
        | some pool ↦ some (record s { pool = pool })
      ]
      else some (record s { pool = deactivated s })

  -- PushBack
  unfoldable pub push_back : ℕ → Conn W → Option (Conn W)
  push_back r s = enqueue r (record s {
    requests = update s.requests r (record (s.requests r) { service = s.service_name });
  })

  -- What Heartbeat does at a tick
  unfoldable pub heartbeat : ℕ → Conn W → Tick
  heartbeat now s =
      if ltb hb_timeout_seconds (now - s.hb_last_time)
      then time_out
      else if s.pool.is_conn_active s.self
      then ping
      else end

  -- The tick that pings: NewPingRequest at the address `fresh`, and PushBack.
  unfoldable pub push_ping : Protocol → ℕ → ℕ → Conn W → Option (Conn W)
  push_ping p now fresh s =
      push_back fresh (record s { requests = update s.requests fresh (new_ping_request p now) })

  abbrev stop : Option (Conn W) → Option (Conn W × Option Error)
  stop none = none
  stop (some t) = some (t, none)

  -- setResponse(nil, data, nil), once the header is decoded
  unfoldable pub handle :
      Protocol → ℕ → List ℕ → ℕ × ℕ × Option Error → Conn W → Option (Conn W × Option Error)
  handle p now bytes (type_id, seq_id, some e) s = some (s, some e)
  handle p now bytes (type_id, seq_id, none) s =
      if type_id == message_type_stop
      then stop (mark_conn_active_false s)
      else answer p now type_id seq_id bytes s

  -- setResponse(nil, data, nil), as loopReader calls it for a frame
  unfoldable pub set_response : Protocol → ℕ → List ℕ → Conn W → Option (Conn W × Option Error)
  set_response p now bytes s = handle p now bytes (decode_thrift_typ_id_seq_id p bytes) s

  -- The loop of flushRequests: heartbeats are skipped, other requests get the error. Go takes the
  -- entries of the map in any order.
  unfoldable pub fail_all : Error → List (ℕ × ℕ) → Conn W → Option (Conn W)
  fail_all e [] s = some s
  fail_all e ((_, r) ∷ rs) s = elim ((s.requests r).type_id == message_type_heart_beat) [
    | true ↦ fail_all e rs s
    | false ↦ elim (done (record (s.requests r) { response_err = some e })) [
      | none ↦ none
      | some q ↦ fail_all e rs (record s { requests = update s.requests r q })
    ]
  ]

  -- close(bc.input)
  unfoldable pub close_input : Conn W → Option (Conn W)
  close_input s = if s.input_closed then none else some (record s { input_closed = true })

  -- flushRequests
  unfoldable pub flush_requests : Error → Conn W → Option (Conn W)
  flush_requests e s = elim (mark_conn_active_false s) [
    | none ↦ none
    | some t ↦ elim (fail_all e t.pending (record t { pending = [] })) [
      | none ↦ none
      | some u ↦ close_input u
    ]
  ]

  -- Run, once loopWriter has returned
  unfoldable pub run_end : Option Error → Conn W → Option (Conn W)
  run_end e s = elim (mark_conn_active_false s) [
    | none ↦ none
    | some t ↦ elim e [ none ↦ some t | some err ↦ drain err t.input t ]
  ]
