-- ===== src/Conn/Fleet.antt =====
-- BackService.HandleRequest and BackServiceLB.Dispatch over the connections of Conn: all connections of
-- a service share the memory of the requests, and each has its own queue. Dispatch then waits for the
-- answer.
mod Examples
use rpc_proxy.Prelude.{
  ℕ, suc, ◌<◌, ◌≡◌, ◌≢◌, refl, sym, ap, subst, ◌∙◌, Bool, false, ltb, if◌then◌else◌, Option, none,
  some, List, [], ◌∷◌, ◌++◌, length, arith, update, update_self, get_elem?,
}
use mathlib.Core.Option.{some-injective}
use rpc_proxy.Thrift.{Protocol}
use rpc_proxy.Request.{Request}
use rpc_proxy.Exceptions.{Exceptions}
use rpc_proxy.Pool.{Pool}
use rpc_proxy.Pool.Dispatching.{
  Service, PushBack, Accepting, after_push, handle_request, dispatch, handle_request-served,
  dispatch-served,
}
use rpc_proxy.Conn.{Conn, wait_add, enqueue, input_capacity}
use rpc_proxy.Conn.Proxy
use rpc_proxy.Conn.LoadBalancer

pub record Fleet (W : Type 0) : Type 0 where
  pub requests : ℕ → Request
  pub conns : ℕ → Conn W

module _ {W : Type 0} where
  -- Connection `c` with the memory that all share, where `r` stands at `a`.
  abbrev pub at_conn : ℕ → ℕ → Request → Fleet W → Conn W
  at_conn a c r d = record (d.conns c) { requests = update d.requests a r }

  abbrev put_back : ℕ → ℕ → Fleet W → Option (Conn W) → Option (Fleet W × Request)
  put_back a c d none = none
  put_back a c d (some t) =
      some (record { requests = t.requests; conns = update d.conns c t }, t.requests a)

  -- The channel `input` has room for one more.
  abbrev pub has_room : ℕ → Fleet W → Bool
  has_room c d = ltb (length (d.conns c).input) input_capacity

  -- PushBack of the request at address `a`, of the proxy's and of the load balancer's connections. Here
  -- `none` is a panic, or a send on `input` that waits because the channel is full.
  abbrev pub push_proxy : ℕ → PushBack (Fleet W)
  push_proxy a c r d =
      if has_room c d then put_back a c d (Proxy.push_back a (at_conn a c r d)) else none

  abbrev pub push_lb : ℕ → PushBack (Fleet W)
  push_lb a c r d =
      if has_room c d then put_back a c d (LoadBalancer.push_back a (at_conn a c r d)) else none

  -- Request `a` is last in the queue of connection `c` and has a wait more, if it has a WaitGroup. No
  -- other queue and no other request has changed.
  pub record Enqueued (a c : ℕ) (r : Request) (d e : Fleet W) : Type 0 where
    pub queued : (e.conns c).input ≡ (d.conns c).input ++ a ∷ []
    pub others : (x : ℕ) → x ≢ c → e.conns x ≡ d.conns x
    pub awaited : (e.requests a).wait ≡ wait_add r.wait
    pub same_message : (e.requests a).payload ≡ r.payload
    pub untouched : (x : ℕ) → x ≢ a → e.requests x ≡ d.requests x

  -- The state after the request's address was queued.
  abbrev appended : ℕ → ℕ → Request → (ℕ → Request) → Fleet W → Fleet W
  appended a c q memory d =
      let t = record (d.conns c) { requests = memory; input = (d.conns c).input ++ a ∷ [] } in
      record {
        requests = update memory a q;
        conns = update d.conns c (record t { requests = update memory a q });
      }

  appended-Enqueued :
      (a c : ℕ) (r q : Request) (memory : ℕ → Request) (d : Fleet W)
      → q.wait ≡ wait_add r.wait
      → q.payload ≡ r.payload
      → ((x : ℕ) → x ≢ a → memory x ≡ d.requests x)
      → Enqueued a c r d (appended a c q memory d)
  appended-Enqueued a c r q memory d w m same = record {
    queued = ground arith;
    others = λ x h. ground arith;
    awaited = ground (arith, w);
    same_message = ground (arith, m);
    untouched = λ x h. ground (arith, same x h);
  }

  push_proxy-Enqueued :
      (a c : ℕ) (r : Request) (d : Fleet W)
      → (d.conns c).input_closed ≡ false
      → length (d.conns c).input < input_capacity
      → (e : Fleet W) × (q : Request) × (push_proxy a c r d ≡ some (e, q)) × Enqueued a c r d e
  unfolding Proxy.push_back enqueue
  push_proxy-Enqueued a c r d opened room =
      let q = record r { wait = wait_add r.wait } in
      let memory = update d.requests a r in
      (
        appended a c q memory d,
        q,
        ground (arith, opened, update_self d.requests a r, update_self memory a q),
        appended-Enqueued a c r q memory d refl refl (λ x h. ground arith),
      )

  push_lb-Enqueued :
      (a c : ℕ) (r : Request) (d : Fleet W)
      → (d.conns c).input_closed ≡ false
      → length (d.conns c).input < input_capacity
      → (e : Fleet W) × (q : Request) × (push_lb a c r d ≡ some (e, q)) × Enqueued a c r d e
  unfolding LoadBalancer.push_back enqueue
  push_lb-Enqueued a c r d opened room =
      let named = record r { service = (d.conns c).service_name } in
      let q = record named { wait = wait_add r.wait } in
      let before = update d.requests a r in
      let memory = update before a named in
      (
        appended a c q memory d,
        q,
        ground (
          arith,
          opened,
          update_self d.requests a r,
          update_self before a named,
          update_self memory a q,
        ),
        appended-Enqueued a c r q memory d refl refl (λ x h. ground arith),
      )

  same_fleet :
      {q r : Request} (m : Option (Fleet W × Request)) (d e : Fleet W)
      → m ≡ some (d, q)
      → m ≡ some (e, r)
      → d ≡ e
  same_fleet {q = q} {r = r} m d e h g = ap (λ z. z.0) (some-injective (d, q) (e, r) (sym h ∙ g))

  -- The queues of the connections in the list are open, and have room.
  abbrev pub AllReady : Service (Fleet W) → Type 0
  AllReady s =
      (i c : ℕ)
      → get_elem? s.pool.active_conns i ≡ some c
      → ((s.conns.conns c).input_closed ≡ false) × (length (s.conns.conns c).input < input_capacity)

module _ (p : Protocol) (x : Exceptions) {W : Type 0} where
  -- Where a service's list has connections, and the queues of all those in it are open and hold fewer
  -- requests than the channel's capacity, HandleRequest of the proxy neither panics nor waits for
  -- room, and puts the request into the queue of exactly one connection of the list, as the last and
  -- with a wait more; no other queue, no other request and not the list changes.
  pub handle_request-Enqueued :
      (now a : ℕ) (r : Request) (s : Service (Fleet W))
      → 0 < length s.pool.active_conns
      → AllReady s
      → (i c : ℕ) × (d : Fleet W) × (q : Request) × (get_elem? s.pool.active_conns i ≡ some c)
        × (handle_request p x (push_proxy a) now r s
            ≡ some (record (after_push d s) { last_request_time = now }, q))
        × Enqueued a c r s.conns d
  handle_request-Enqueued now a r s some_conns ready =
      let push = push_proxy a in
      let quiet : Accepting p x push r s = λ i c h.
        let (d, q, done, _) = push_proxy-Enqueued a c r s.conns (ready i c h).0 (ready i c h).1 in
        (d, q, done) in
      let (i, c, d, q, here, done, pushed) =
        handle_request-served p x push now r s some_conns quiet in
      let (e, _, same, entered) =
        push_proxy-Enqueued a c r s.conns (ready i c here).0 (ready i c here).1 in
      (
        i,
        c,
        d,
        q,
        here,
        done,
        subst (λ y. Enqueued a c r s.conns y) (same_fleet (push c r s.conns) e d same pushed)
            entered,
      )

  -- The same of Dispatch of the load balancer, up to its wait for the answer.
  pub dispatch-Enqueued :
      (a : ℕ) (r : Request) (s : Service (Fleet W))
      → 0 < length s.pool.active_conns
      → AllReady s
      → (i c : ℕ) × (d : Fleet W) × (q : Request) × (get_elem? s.pool.active_conns i ≡ some c)
        × (dispatch p x (push_lb a) r s ≡ some (after_push d s, q))
        × Enqueued a c r s.conns d
  dispatch-Enqueued a r s some_conns ready =
      let push = push_lb a in
      let named = record r { service = s.service_name } in
      let quiet : Accepting p x push named s = λ i c h.
        let (d, q, done, _) = push_lb-Enqueued a c named s.conns (ready i c h).0 (ready i c h).1 in
        (d, q, done) in
      let (i, c, d, q, here, done, pushed) = dispatch-served p x push r s some_conns quiet in
      let (e, _, same, entered) =
        push_lb-Enqueued a c named s.conns (ready i c here).0 (ready i c here).1 in
      let at_d =
        subst (λ y. Enqueued a c named s.conns y)
          (same_fleet (push c named s.conns) e d same pushed) entered in
      (
        i,
        c,
        d,
        q,
        here,
        done,
        record {
          queued = at_d.queued;
          others = at_d.others;
          awaited = at_d.awaited;
          same_message = at_d.same_message;
          untouched = at_d.untouched;
        },
      )
