-- ===== src/Conn/EndToEnd.antt =====
-- A client's call, from its message to its answer, through the connections of a proxy and of a load
-- balancer, each with its own memory of requests, its own table and its own numbers.
mod Examples
use rpc_proxy.Prelude.{
  ℕ, suc, ◌<◌, ◌≡◌, ◌≢◌, refl, sym, ap, ◌∙◌, none, some, List, ◌∷◌, ◌++◌, length, arith, lookup,
  length-append,
}
use rpc_proxy.Thrift.{
  Protocol, IsHeader, multiplexed_separator, message_type_heart_beat, message_type_stop,
}
use rpc_proxy.Framing.Output.{Sink}
use rpc_proxy.Request.{Request, bytes_of, replace_seq_id}
use rpc_proxy.Request.Names.{IsService, full_name}
use rpc_proxy.Request.Hops.{
  Forwarded, from_client, from_proxy, from_client-Forwarded, from_proxy-Forwarded,
}
use rpc_proxy.Conn.{Conn, send}
use rpc_proxy.Conn.Entering.{Written, send-Written}
use rpc_proxy.Conn.Hops.{Entered, Returned, two_hops}
use rpc_proxy.Conn.Proxy
use rpc_proxy.Conn.LoadBalancer

module _ (k : Sink) (p : Protocol) where
  open p use {write_message_begin}

  Written-Entered :
      (name : List ℕ) (type_id old new r n : ℕ) (body : List ℕ) (q : Request) (t : Conn k.W)
      → Forwarded p name type_id old new n body q
      → Written k p r q t
      → Entered p name old new r n t
  Written-Entered name type_id old new r n body q t f w = record {
    entry = ap (λ x. lookup x t.pending) (sym f.numbered) ∙ w.entry;
    called = ap (λ x. x.name) w.now_is ∙ f.called;
    from = ap (λ x. x.seq_id) w.now_is ∙ f.from;
    waiting = ap (λ x. x.wait) w.now_is ∙ f.waiting;
  }

  -- Writing a request that goes out as a call of `name` enters it, and this is what it sends.
  sent_on :
      (name : List ℕ) (type_id old n now later r : ℕ) (body : List ℕ) (q x : Request)
      (s t : Conn k.W)
      → s.requests r ≡ x
      → replace_seq_id p s.current_seq_id x ≡ some q
      → Forwarded p name type_id old s.current_seq_id n body q
      → send k p now later r s ≡ some (t, none)
      → Entered p name old s.current_seq_id r n t
        × ((t.requests r).payload
            ≡ some (write_message_begin name type_id s.current_seq_id ++ body))
  sent_on name type_id old n now later r body q x s t e d f h =
      let w = send-Written k p now later r s t q (ap (replace_seq_id p s.current_seq_id) e ∙ d) h in
      (
        Written-Entered name type_id old s.current_seq_id r n body q t f w,
        ap (λ y. y.payload) w.now_is ∙ f.sent,
      )

module _ (j k : Sink) (p : Protocol) where
  open p use {write_message_begin}

  module _ (service name : List ℕ) (type_id seq_id : ℕ) (body : List ℕ) (is : IsService service)
      (plain : IsService name) (pos : 0 < length service)
      (h : IsHeader (full_name service name) type_id seq_id) where
    shorter : (x y : ℕ) → x < 256 → y < 4_294_967_296 → IsHeader name x y
    shorter x y small fits = omega (arith, length-append service (multiplexed_separator ∷ name))

    -- The way out: the worker gets the call under the load balancer's number, and both connections
    -- have it in their tables.
    pub way_out :
        (lb : List ℕ) (a b m n now later soon then : ℕ) (s t : Conn j.W) (u v : Conn k.W)
        → s.current_seq_id < 4_294_967_296
        → s.requests a
          ≡ from_client p (write_message_begin (full_name service name) type_id seq_id ++ body) m
        → send j p now later a s ≡ some (t, none)
        → u.requests b ≡ from_proxy p lb (bytes_of (t.requests a).payload) n
        → send k p soon then b u ≡ some (v, none)
        → Entered p name seq_id s.current_seq_id a m t
          × Entered p name s.current_seq_id u.current_seq_id b n v
          × ((v.requests b).payload
              ≡ some (write_message_begin name type_id u.current_seq_id ++ body))
    way_out lb a b m n now later soon then s t u v fits ra sa rb sb =
        let one = s.current_seq_id in
        let (q, done, f) =
          from_client-Forwarded p service name type_id seq_id one m body is pos h in
        let (entered, out) =
          sent_on j p name type_id seq_id m now later a body q _ s t ra done f sa in
        let (q', done', f') =
          from_proxy-Forwarded p lb name type_id one u.current_seq_id n body plain
            (shorter type_id one h.1 fits) in
        let given = rb ∙ ap (λ d. from_proxy p lb (bytes_of d) n) out in
        let (again, on) =
          sent_on k p name type_id one n soon then b body q' _ u v given done' f' sb in
        (entered, again, on)

    -- A client's call `service:name` under number `seq_id`, over two hops. If the proxy's connection
    -- writes it without an error, and the load balancer's connection to a worker then writes without
    -- an error the request that its session made of those bytes, then the worker gets the method, the
    -- type and the body under the load balancer's number. If the worker answers under that number,
    -- with a type that is not the heartbeat's and not the stop's, then setResponse of the load balancer
    -- does not panic, the bytes that it leaves make setResponse of the proxy find the client's request,
    -- and the client gets the worker's body, under its own number, with one wait less at each hop.
    pub end_to_end :
        (lb : List ℕ) (a b m n now later soon then ago since reply : ℕ) (answer_body : List ℕ)
        (s t : Conn j.W) (u v : Conn k.W)
        → s.current_seq_id < 4_294_967_296
        → u.current_seq_id < 4_294_967_296
        → s.requests a
          ≡ from_client p (write_message_begin (full_name service name) type_id seq_id ++ body) m
        → send j p now later a s ≡ some (t, none)
        → u.requests b ≡ from_proxy p lb (bytes_of (t.requests a).payload) n
        → send k p soon then b u ≡ some (v, none)
        → reply < 256
        → reply ≢ message_type_heart_beat
        → reply ≢ message_type_stop
        → ((v.requests b).payload
            ≡ some (write_message_begin name type_id u.current_seq_id ++ body))
          × (w : Conn k.W) × (x : Conn j.W) × (LoadBalancer.set_response p ago
                (write_message_begin name reply u.current_seq_id ++ answer_body)
                v
              ≡ some (w, none))
          × (Proxy.set_response p since (bytes_of (w.requests b).response_data) t ≡ some (x, none))
          × Returned p name reply s.current_seq_id b n answer_body w
          × Returned p name reply seq_id a m answer_body x
    end_to_end lb a b m n now later soon then ago since reply answer_body s t u v fits fits' ra sa
          rb sb small other going =
        let (entered, again, on) =
          way_out lb a b m n now later soon then s t u v fits ra sa rb sb in
        let one = s.current_seq_id in
        let (w, x, back, home, held, given) =
          two_hops p name reply seq_id one u.current_seq_id a b m n ago since answer_body t v
            entered again other going (shorter reply one small fits)
            (shorter reply u.current_seq_id small fits') in
        (on, w, x, back, home, held, given)
