-- ===== src/Conn/Proxy/Release.antt =====
-- When the connection to a server breaks, flushRequests and Run let everyone go.
use rpc_proxy.Prelude.{
  ℕ, suc, ◌≡◌, refl, ap, sym, subst, ◌∙◌, false, not, some, List, [], ◌∷◌, ◌++◌, arith, update,
  Bool-cases, inl, inr, ◌≢◌,
}
use rpc_proxy.Errors.{Error}
use rpc_proxy.Pool.{Pool}
use rpc_proxy.Pool.Invariant.{Inv}
use rpc_proxy.Pool.Removal.{state_changed-Updated}
use rpc_proxy.Conn.{Conn}
use rpc_proxy.Conn.Accounts.{Accounts, count, count_values, values, count-values, count-++}
use rpc_proxy.Conn.Steps.{with_request, release, drain-Accounts}
use rpc_proxy.Conn.Proxy.{set_active, mark_conn_active_false, fail_all, flush_requests, run_end}

module _ {W : Type 0} where
  pub record Failed (xs : List ℕ) (s t : Conn W) : Type 0 where
    pub accounts : Accounts xs t
    pub same_input : t.input ≡ s.input
    pub same_pending : t.pending ≡ s.pending
    pub same_pool : t.pool ≡ s.pool

  -- The loop of flushRequests does not panic, and ends one wait of each request in the table.
  pub fail_all-Failed :
      (xs : List ℕ) (e : Error) (m : List (ℕ × ℕ)) (s : Conn W)
      → Accounts (values m ++ xs) s
      → (t : Conn W) × (fail_all e m s ≡ some t) × Failed xs s t
  unfolding fail_all
  fail_all-Failed xs e [] s a =
      (s, refl, record { accounts = a; same_input = refl; same_pending = refl; same_pool = refl })
  fail_all-Failed xs e ((k, r) ∷ m) s a =
      let (r', d, b) =
        release (values m ++ xs) r s (record (s.requests r) { response_err = some e }) a refl in
      let (t, go, f) = fail_all-Failed xs e m (with_request s r r') b in
      (
        t,
        rw (d, fail_all) go,
        record {
          accounts = f.accounts;
          same_input = f.same_input;
          same_pending = f.same_pending;
          same_pool = f.same_pool;
        },
      )

  abbrev with_pool : Conn W → Pool → Conn W
  with_pool s pool = record s { pool = pool }

  -- MarkConnActiveFalse on a list in order changes nothing but the list, which stays in order.
  mark-Inv :
      (s : Conn W)
      → Inv s.pool
      → (pool : Pool) × (mark_conn_active_false s ≡ some (with_pool s pool)) × Inv pool
  unfolding mark_conn_active_false set_active
  mark-Inv s i = elim (Bool-cases (s.pool.is_conn_active s.self)) [
    | inl on ↦
        let off = record s.pool { is_conn_active = update s.pool.is_conn_active s.self false } in
        let (pool, changed, u) =
          state_changed-Updated s.self off (record { listed = i.listed; placed = i.placed }) in
        (pool, ground (arith, changed), u.agrees)
    | inr off ↦ (s.pool, ground arith, i)
  ]

  flushed-Accounts :
      (e : Error) (s : Conn W)
      → Accounts [] s
      → Inv s.pool
      → (t : Conn W) × (flush_requests e s ≡ some t) × Accounts [] t × (t.pending ≡ []) × Inv t.pool
  unfolding flush_requests
  flushed-Accounts e s a i =
      let (pool, marked, j) = mark-Inv s i in
      let start = record (with_pool s pool) { pending = [] } in
      let b : Accounts (values s.pending ++ []) start = record {
        keys = tt;
        waits = λ x n h.
            omega
              (arith, a.waits x n h, count-values x s.pending, count-++ x (values s.pending) []);
      } in
      let (t, go, f) = fail_all-Failed [] e s.pending start b in
      (t, rw (marked, flush_requests) go, f.accounts, f.same_pending, subst Inv (sym f.same_pool) j)

  ended-Accounts :
      (e : Error) (s : Conn W)
      → Accounts [] s
      → Inv s.pool
      → s.pending ≡ []
      → (t : Conn W) × (run_end (some e) s ≡ some (t, not t.is_mark_offline))
        × Accounts [] t
        × (t.input ≡ [])
        × (t.pending ≡ [])
  unfolding run_end
  ended-Accounts e s a i none_pending =
      let (pool, marked, _) = mark-Inv s i in
      let b : Accounts s.input (record (with_pool s pool) { input = [] }) = record {
        keys = a.keys;
        waits = λ x n h. omega (arith, a.waits x n h);
      } in
      let (t, go, c, z, y) = drain-Accounts e s.input (with_pool s pool) b in
      (t, rw (marked, go, run_end) refl, c, z, y ∙ none_pending)

  -- The connection to a server breaks: loopReader flushes the table and then Run drains the queue.
  -- Where each WaitGroup counts the places of its request in queue and table, and the service's
  -- list and its connections' indices agree, neither panics, and afterwards no request's WaitGroup
  -- is above zero: nobody waits any more. Run goes on just where the connection is not marked
  -- offline.
  pub everyone_let_go :
      (read_err write_err : Error) (s : Conn W) (r n : ℕ)
      → Accounts [] s
      → Inv s.pool
      → (t u : Conn W) × (flush_requests read_err s ≡ some t)
        × (run_end (some write_err) t ≡ some (u, not u.is_mark_offline))
        × ((u.requests r).wait ≢ some (suc n))
  everyone_let_go read_err write_err s r n a i =
      let (t, flushed, b, none_pending, j) = flushed-Accounts read_err s a i in
      let (u, ended, c, no_input, no_pending) = ended-Accounts write_err t b j none_pending in
      (
        t,
        u,
        flushed,
        ended,
        λ h. absurd (
            omega
              (arith, c.waits r (suc n) h, ap (count r) no_input, ap (count_values r) no_pending)),
      )
