-- ===== src/Pool/Dispatching.antt =====
-- BackService.HandleRequest (proxy/backend_service_proxy.go) and BackServiceLB.Dispatch
-- (proxy/backend_service_lb.go), up to the wait for the answer that ends the latter. What they do
-- with the connection that they choose is PushBack, an argument here: it acts on the connections `D`
-- and on the request, and `none` is its panic.
use rpc_proxy.Prelude.{
  ℕ, ◌+◌, ◌≡◌, refl, Option, none, some, List, [], ◌∷◌, arith, length, ◌<◌, get_elem?,
  get_elem?_of_lt, ap,
}
use rpc_proxy.Thrift.{Protocol, IsHeader, exception}
use rpc_proxy.Request.{Request, bytes_of}
use rpc_proxy.Exceptions.{Exceptions, get_worker_not_found_data}
use rpc_proxy.Pool.{Pool, next_backend_conn, wrapped}

pub record Service (D : Type 0) : Type 0 where
  pub service_name : List ℕ
  pub pool : Pool
  pub last_request_time : ℕ
  pub conns : D

abbrev pub PushBack : Type 0 → Type 0
PushBack D = ℕ → Request → D → Option (D × Request)

abbrev back_service_text : List ℕ
back_service_text = b'B' ∷ b'a' ∷ b'c' ∷ b'k' ∷ b'S' ∷ b'e' ∷ b'r' ∷ b'v' ∷ b'i' ∷ b'c' ∷ b'e' ∷ []

abbrev back_service_lb_text : List ℕ
back_service_lb_text =
    b'B' ∷ b'a' ∷ b'c' ∷ b'k' ∷ b'S' ∷ b'e' ∷ b'r' ∷ b'v' ∷ b'i' ∷ b'c' ∷ b'e' ∷ b'L' ∷ b'B' ∷ []

next_of :
    (s : Pool) (c : ℕ)
    → 0 < length s.active_conns
    → get_elem? s.active_conns (wrapped s) ≡ some c
    → next_backend_conn s ≡ some (some c, record s { current_conn_index = wrapped s + 1 })
unfolding next_backend_conn
next_of s c h e = ground (arith, e)

wrapped_within : (s : Pool) → 0 < length s.active_conns → wrapped s < length s.active_conns
wrapped_within s h = ground arith

module _ {D : Type 0} where
  -- The service after PushBack to the connection that is next.
  abbrev pub after_push : D → Service D → Service D
  after_push d s = record s {
    pool = record s.pool { current_conn_index = wrapped s.pool + 1 };
    conns = d;
  }

module _ (p : Protocol) (x : Exceptions) where
  -- The answer where there is no connection.
  abbrev pub unserved : List ℕ → Request → Request
  unserved part r =
      let (q, bytes) = get_worker_not_found_data p x part r in
      record q { response_data = some bytes }

  module _ {D : Type 0} (push_back : PushBack D) where
    -- PushBack, where a connection was found
    abbrev pub pushed : Service D → Option (D × Request) → Option (Service D × Request)
    pushed s none = none
    pushed s (some (d, q)) = some (record s { conns = d }, q)

    abbrev pub served : List ℕ → Request → Service D → Option ℕ → Option (Service D × Request)
    served part r s none = some (s, unserved part r)
    served part r s (some c) = pushed s (push_back c r s.conns)

    -- BackService.HandleRequest; `now` is the clock.
    unfoldable pub handle_request : ℕ → Request → Service D → Option (Service D × Request)
    handle_request now r s = elim (next_backend_conn s.pool) [
      | none ↦ none
      | some (c, pool) ↦
          served back_service_text r (record s { pool = pool; last_request_time = now }) c
    ]

    -- BackServiceLB.Dispatch
    unfoldable pub dispatch : Request → Service D → Option (Service D × Request)
    dispatch r s = elim (next_backend_conn s.pool) [
      | none ↦ none
      | some (c, pool) ↦
          served back_service_lb_text (record r { service = s.service_name })
            (record s { pool = pool }) c
    ]

    -- Without a connection HandleRequest answers at once, and leaves the connections alone: the client
    -- gets an exception under the method's name and its own sequence number, and nothing is waited for.
    pub handle_request-unserved :
        (now : ℕ) (r : Request) (s : Service D)
        → s.pool.active_conns ≡ []
        → IsHeader r.name exception r.seq_id
        → (q : Request) × (handle_request now r s ≡ some (record s { last_request_time = now }, q))
          × (p.read_message_begin (bytes_of q.response_data)
              ≡ (record { name = r.name; type_id = exception; seq_id = r.seq_id }, none))
          × (q.wait ≡ r.wait)
    unfolding handle_request next_backend_conn get_worker_not_found_data
    handle_request-unserved now r s empty fits = (
      unserved back_service_text r,
      ground (arith, ap length empty),
      p.read-write r.name exception r.seq_id _ fits,
      refl,
    )

    -- Without a connection Dispatch of the load balancer answers at once, and leaves the connections
    -- alone: the client gets an exception under the method's name and its own sequence number.
    pub dispatch-unserved :
        (r : Request) (s : Service D)
        → s.pool.active_conns ≡ []
        → IsHeader r.name exception r.seq_id
        → (q : Request) × (dispatch r s ≡ some (s, q))
          × (p.read_message_begin (bytes_of q.response_data)
              ≡ (record { name = r.name; type_id = exception; seq_id = r.seq_id }, none))
          × (q.wait ≡ r.wait)
    unfolding dispatch next_backend_conn get_worker_not_found_data
    dispatch-unserved r s empty fits = (
      unserved back_service_lb_text (record r { service = s.service_name }),
      ground (arith, ap length empty),
      p.read-write r.name exception r.seq_id _ fits,
      refl,
    )

    -- PushBack panics for no connection of the list.
    abbrev pub Accepting : Request → Service D → Type 0
    Accepting r s =
        (i c : ℕ)
        → get_elem? s.pool.active_conns i ≡ some c
        → (d : D) × (q : Request) × (push_back c r s.conns ≡ some (d, q))

    -- Where the list holds connections and PushBack panics for none of them, a request is pushed to
    -- one connection of the list, and nothing else is done to the connections.
    pub handle_request-served :
        (now : ℕ) (r : Request) (s : Service D)
        → 0 < length s.pool.active_conns
        → Accepting r s
        → (i c : ℕ) × (d : D) × (q : Request) × (get_elem? s.pool.active_conns i ≡ some c)
          × (handle_request now r s ≡ some (record (after_push d s) { last_request_time = now }, q))
          × (push_back c r s.conns ≡ some (d, q))
    unfolding handle_request
    handle_request-served now r s some_conns quiet =
        let (c, here) =
          get_elem?_of_lt s.pool.active_conns (wrapped s.pool) (wrapped_within s.pool some_conns) in
        let (d, q, push) = quiet (wrapped s.pool) c here in
        (
          wrapped s.pool,
          c,
          d,
          q,
          here,
          ground (arith, next_of s.pool c some_conns here, push),
          push,
        )

    -- The same of Dispatch, which puts its own service into the request first.
    pub dispatch-served :
        (r : Request) (s : Service D)
        → 0 < length s.pool.active_conns
        → Accepting (record r { service = s.service_name }) s
        → (i c : ℕ) × (d : D) × (q : Request) × (get_elem? s.pool.active_conns i ≡ some c)
          × (dispatch r s ≡ some (after_push d s, q))
          × (push_back c (record r { service = s.service_name }) s.conns ≡ some (d, q))
    unfolding dispatch
    dispatch-served r s some_conns quiet =
        let (c, here) =
          get_elem?_of_lt s.pool.active_conns (wrapped s.pool) (wrapped_within s.pool some_conns) in
        let (d, q, push) = quiet (wrapped s.pool) c here in
        (
          wrapped s.pool,
          c,
          d,
          q,
          here,
          ground (arith, next_of s.pool c some_conns here, push),
          push,
        )
