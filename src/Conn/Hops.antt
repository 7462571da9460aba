-- ===== src/Conn/Hops.antt =====
-- A call over two hops: the proxy's connection sends it to the load balancer under one number, the
-- load balancer's connection to a worker under another, and the answer comes back the same way.
use rpc_proxy.Prelude.{ℕ, suc, ◌≡◌, ◌≢◌, ap, ◌∙◌, none, some, List, ◌++◌, arith, lookup}
use rpc_proxy.Thrift.{Protocol, IsHeader, message_type_heart_beat, message_type_stop}
use rpc_proxy.Request.{bytes_of, decode_thrift_typ_id_seq_id}
use rpc_proxy.Conn.{Conn, answer}
use rpc_proxy.Conn.Routing.{answer-Answered}
use rpc_proxy.Conn.Proxy
use rpc_proxy.Conn.LoadBalancer

module _ {W : Type 0} (p : Protocol) where
  open p use {write_message_begin, read_message_begin}

  -- Request `r` stands in the table under `seq`, as a client's call of `name` under `client`; its
  -- session waits, and `n` waits are left when this one is over.
  pub record Entered (name : List ℕ) (client seq r n : ℕ) (s : Conn W) : Type 0 where
    pub entry : lookup seq s.pending ≡ some r
    pub called : (s.requests r).name ≡ name
    pub from : (s.requests r).seq_id ≡ client
    pub waiting : (s.requests r).wait ≡ some (suc n)

  -- What is left: the answer under the client's number, for one wait less.
  pub record Returned (name : List ℕ) (reply client r n : ℕ) (body : List ℕ) (t : Conn W)
      : Type 0 where
    pub given : (t.requests r).response_data ≡ some (write_message_begin name reply client ++ body)
    pub no_error : (t.requests r).response_err ≡ none
    pub let_go : (t.requests r).wait ≡ some n

  module _ (name : List ℕ) (reply client seq r n : ℕ) (body : List ℕ) (s : Conn W)
      (e : Entered name client seq r n s) where
    abbrev frame : List ℕ
    frame = write_message_begin name reply seq ++ body

    answered_call :
        (now : ℕ)
        → reply ≢ message_type_heart_beat
        → (t : Conn W) × (answer p now reply seq frame s ≡ some (t, none))
          × Returned name reply client r n body t
    answered_call now other =
        let (t, done, a, w) =
          answer-Answered p now name reply seq r n body s other e.entry e.called e.waiting in
        let numbered : some (write_message_begin name reply (s.requests r).seq_id ++ body)
            ≡ some (write_message_begin name reply client ++ body) =
          ap (λ x. some (write_message_begin name reply x ++ body)) e.from in
        (t, done, record { given = a.reply ∙ numbered; no_error = a.no_error; let_go = w })

    decoded : IsHeader name reply seq → decode_thrift_typ_id_seq_id p frame ≡ (reply, seq, none)
    decoded h = ap (λ (m, e). (m.type_id, m.seq_id, e)) (p.read-write name reply seq body h)

    -- setResponse of the proxy's connection, given the answer to a call that it has entered
    proxy_returns :
        (now : ℕ)
        → reply ≢ message_type_heart_beat
        → IsHeader name reply seq
        → (t : Conn W) × (Proxy.set_response p now frame s ≡ some (t, none))
          × Returned name reply client r n body t
    unfolding Proxy.set_response Proxy.handle
    proxy_returns now other h =
        let (t, done, b) = answered_call now other in
        (t, ap (λ d. Proxy.handle p now frame d s) (decoded h) ∙ done, b)

    -- The same of the load balancer's
    worker_returns :
        (now : ℕ)
        → reply ≢ message_type_heart_beat
        → reply ≢ message_type_stop
        → IsHeader name reply seq
        → (t : Conn W) × (LoadBalancer.set_response p now frame s ≡ some (t, none))
          × Returned name reply client r n body t
    unfolding LoadBalancer.set_response LoadBalancer.handle
    worker_returns now other going h =
        let (t, done, b) = answered_call now other in
        (t, ap (λ d. LoadBalancer.handle p now frame d s) (decoded h) ∙ ground (arith, done), b)

module _ {V W : Type 0} (p : Protocol) where
  open p use {write_message_begin, read_message_begin}

  -- The way back: a worker answers, under its number `there`, a call that the load balancer got under
  -- number `here` and the proxy from its client under `client`. The bytes that setResponse of the load
  -- balancer leaves in its request are what setResponse of the proxy finds its own request by, and
  -- the client's answer has the client's number, the answer's type and the worker's body. Neither
  -- panics, and at each hop one wait ends. The answer's type is neither that of a heartbeat nor
  -- that of a stop.
  pub two_hops :
      (name : List ℕ) (reply client here there a b m n now later : ℕ) (body : List ℕ) (s : Conn V)
      (u : Conn W)
      → Entered p name client here a m s
      → Entered p name here there b n u
      → reply ≢ message_type_heart_beat
      → reply ≢ message_type_stop
      → IsHeader name reply here
      → IsHeader name reply there
      → (w : Conn W) × (t : Conn V) × (LoadBalancer.set_response p now
            (write_message_begin name reply there ++ body)
            u
          ≡ some (w, none))
        × (Proxy.set_response p later (bytes_of (w.requests b).response_data) s ≡ some (t, none))
        × Returned p name reply here b n body w
        × Returned p name reply client a m body t
  two_hops name reply client here there a b m n now later body s u es eu other going h g =
      let (w, back, rets) =
        worker_returns p name reply here there b n body u eu now other going g in
      let (t, home, rt) = proxy_returns p name reply client here a m body s es later other h in
      (
        w,
        t,
        back,
        ap (λ d. Proxy.set_response p later (bytes_of d) s) (rets.given) ∙ home,
        rets,
        rt,
      )
