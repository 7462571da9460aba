-- ===== src/Conn/LoadBalancer/Release.antt =====
-- When the connection to a worker breaks, flushRequests and the end of Run let everyone go.
use rpc_proxy.Prelude.{
  ℕ, suc, ◌≡◌, refl, ap, ◌∙◌, Bool, true, false, none, some, List, [], ◌∷◌, ◌++◌, arith, ◌==◌,
  Bool-cases, Option-cases, inl, inr, ==_iff, ◌≢◌, get_elem?, update_self, ap₂,
}
use rpc_proxy.Errors.{Error}
use rpc_proxy.Thrift.{message_type_heart_beat}
use rpc_proxy.Request.{Request}
use rpc_proxy.Pool.{Pool}
use rpc_proxy.Pool.Invariant.{Listed}
use rpc_proxy.Pool.LoadBalancer
use rpc_proxy.Pool.LoadBalancer.Removal.{state_changed-TakenOut}
use rpc_proxy.Conn.{Conn, done}
use rpc_proxy.Conn.Accounts.{Accounts, count, count_values, values, count-values, count-++}
use rpc_proxy.Conn.Steps.{with_request, release, drain-Accounts}
use rpc_proxy.Conn.LoadBalancer.{
  deactivated, mark_conn_active_false, fail_all, close_input, flush_requests, run_end,
}

done-keeps : (q q' : Request) → done q ≡ some q' → q'.type_id ≡ q.type_id
unfolding done
done-keeps q q' h = ground arith

module _ {W : Type 0} where
  -- Nobody waits for a heartbeat.
  abbrev pub Quiet : Conn W → Type 0
  Quiet s = (r : ℕ) → (s.requests r).type_id ≡ message_type_heart_beat → (s.requests r).wait ≡ none

  pub record Failed (xs : List ℕ) (s t : Conn W) : Type 0 where
    pub accounts : Accounts xs t
    pub quiet : Quiet t
    pub same_input : t.input ≡ s.input
    pub same_pending : t.pending ≡ s.pending
    pub same_pool : t.pool ≡ s.pool
    pub same_self : t.self ≡ s.self
    pub same_closed : t.input_closed ≡ s.input_closed

  -- The loop of flushRequests does not panic, and ends one wait of each request in the table.
  pub fail_all-Failed :
      (xs : List ℕ) (e : Error) (m : List (ℕ × ℕ)) (s : Conn W)
      → Accounts (values m ++ xs) s
      → Quiet s
      → (t : Conn W) × (fail_all e m s ≡ some t) × Failed xs s t
  unfolding fail_all
  fail_all-Failed xs e [] s a q = (
    s,
    refl,
    record {
      accounts = a;
      quiet = q;
      same_input = refl;
      same_pending = refl;
      same_pool = refl;
      same_self = refl;
      same_closed = refl;
    },
  )
  fail_all-Failed xs e ((k, r) ∷ m) s a q =
      elim (Bool-cases ((s.requests r).type_id == message_type_heart_beat)) [
        | inl hb ↦
            let nobody = q r ((==_iff _ _).0 hb) in
            let b : Accounts (values m ++ xs) s = record {
              keys = a.keys;
              waits = λ x n h. ground (arith, a.waits x n h);
            } in
            let (t, go, f) = fail_all-Failed xs e m s b q in (t, rw (hb, fail_all) go, f)
        | inr other ↦
            let (r', d, b) =
              release (values m ++ xs) r s (record (s.requests r) { response_err = some e }) a
                refl in
            let same = done-keeps (record (s.requests r) { response_err = some e }) r' d in
            let (t, go, f) =
              fail_all-Failed xs e m (with_request s r r') b (λ x h. ground (arith, q x, same)) in
            (
              t,
              rw (other, d, fail_all) go,
              record {
                accounts = f.accounts;
                quiet = f.quiet;
                same_input = f.same_input;
                same_pending = f.same_pending;
                same_pool = f.same_pool;
                same_self = f.same_self;
                same_closed = f.same_closed;
              },
            )
      ]

keeps_states :
    (verbose : Bool) (c : ℕ) (s t : Pool)
    → LoadBalancer.state_changed verbose c s ≡ some t
    → t.is_conn_active ≡ s.is_conn_active
unfolding LoadBalancer.state_changed LoadBalancer.remove_conn
keeps_states verbose c s t h = ground arith

module _ {W : Type 0} where
  -- MarkConnActiveFalse changes nothing but the pool, where the connection is inactive then.
  pub mark-keeps :
      (s m : Conn W)
      → mark_conn_active_false s ≡ some m
      → (m ≡ record s { pool = m.pool }) × (m.pool.is_conn_active s.self ≡ false)
  unfolding mark_conn_active_false
  mark-keeps s m h = elim (Bool-cases (s.pool.is_conn_active s.self)) [
    | inl on ↦ elim (Option-cases (LoadBalancer.state_changed s.verbose s.self (deactivated s))) [
      | inl panics ↦ ground arith
      | inr (t, changed) ↦ ground (arith, keeps_states s.verbose s.self (deactivated s) t changed)
    ]
    | inr off ↦ ground arith
  ]

  abbrev with_pool : Conn W → Pool → Conn W
  with_pool s pool = record s { pool = pool }

  flushed-Accounts :
      (e : Error) (s : Conn W) (pool : Pool)
      → Accounts [] s
      → Quiet s
      → mark_conn_active_false s ≡ some (with_pool s pool)
      → s.input_closed ≡ false
      → (t : Conn W) × (flush_requests e s ≡ some t)
        × Accounts [] t
        × (t.pending ≡ [])
        × (t.input ≡ s.input)
        × (t.pool ≡ pool)
        × (t.self ≡ s.self)
  unfolding flush_requests close_input
  flushed-Accounts e s pool a q marked opened =
      let start = record (with_pool s pool) { pending = [] } in
      let b : Accounts (values s.pending ++ []) start = record {
        keys = tt;
        waits = λ x n h.
            omega
              (arith, a.waits x n h, count-values x s.pending, count-++ x (values s.pending) []);
      } in
      let (t, go, f) = fail_all-Failed [] e s.pending start b q in
      (
        record t { input_closed = true },
        rw (marked, flush_requests) (ground (arith, go, f.same_closed)),
        record { keys = f.accounts.keys; waits = f.accounts.waits },
        f.same_pending,
        f.same_input,
        f.same_pool,
        f.same_self,
      )

  mark_inactive :
      (s : Conn W)
      → s.pool.is_conn_active s.self ≡ false
      → mark_conn_active_false s ≡ some (with_pool s (deactivated s))
  unfolding mark_conn_active_false
  mark_inactive s off = ground arith

  ended-Accounts :
      (e : Error) (s : Conn W)
      → Accounts [] s
      → s.pool.is_conn_active s.self ≡ false
      → s.pending ≡ []
      → (t : Conn W) × (run_end (some e) s ≡ some t)
        × Accounts [] t
        × (t.input ≡ [])
        × (t.pending ≡ [])
  unfolding run_end
  ended-Accounts e s a off none_pending =
      let m = with_pool s (deactivated s) in
      let b : Accounts s.input (record m { input = [] }) = record {
        keys = a.keys;
        waits = λ x n h. omega (arith, a.waits x n h);
      } in
      let (t, go, c, z, y) = drain-Accounts e s.input m b in
      (t, rw (mark_inactive s off, run_end) go, c, z, y ∙ none_pending)

  mark_succeeds :
      (i : ℕ) (s : Conn W)
      → Listed s.pool
      → get_elem? s.pool.active_conns i ≡ some s.self
      → (m : Conn W) × (mark_conn_active_false s ≡ some m)
  unfolding mark_conn_active_false
  mark_succeeds i s listed here =
      let (pool, changed, _) =
        state_changed-TakenOut s.verbose s.self i (deactivated s) listed here
          (update_self s.pool.is_conn_active s.self false) in
      elim (Bool-cases (s.pool.is_conn_active s.self)) [
        | inl on ↦ (with_pool s pool, ground (arith, changed))
        | inr off ↦ (with_pool s (deactivated s), ground arith)
      ]

  -- The connection to a worker breaks: loopReader flushes the table and then Run drains the queue.
  -- Where each WaitGroup counts the places of its request in queue and table, nobody waits for a
  -- heartbeat, the queue is open and the worker is in the list, whose connections know their
  -- places, neither panics, and afterwards no request's WaitGroup is above zero: nobody waits any
  -- more.
  pub everyone_released :
      (read_err write_err : Error) (i : ℕ) (s : Conn W) (r n : ℕ)
      → Accounts [] s
      → Quiet s
      → s.input_closed ≡ false
      → Listed s.pool
      → get_elem? s.pool.active_conns i ≡ some s.self
      → (t u : Conn W) × (flush_requests read_err s ≡ some t)
        × (run_end (some write_err) t ≡ some u)
        × ((u.requests r).wait ≢ some (suc n))
  everyone_released read_err write_err i s r n a q opened listed here =
      let (m, marked) = mark_succeeds i s listed here in
      let (shape, off) = mark-keeps s m marked in
      let (t, flushed, b, none_pending, _, same_pool, same_self) =
        flushed-Accounts read_err s m.pool a q (marked ∙ ap some shape) opened in
      let inactive : t.pool.is_conn_active t.self ≡ false =
        ap₂ (λ (p : Pool) (c : ℕ). p.is_conn_active c) same_pool same_self ∙ off in
      let (u, ended, c, no_input, no_pending) =
        ended-Accounts write_err t b inactive none_pending in
      (
        t,
        u,
        flushed,
        ended,
        λ h. absurd (
            omega
              (arith, c.waits r (suc n) h, ap (count r) no_input, ap (count_values r) no_pending)),
      )
