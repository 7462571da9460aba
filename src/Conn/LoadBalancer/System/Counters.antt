-- ===== src/Conn/LoadBalancer/System/Counters.antt =====
-- What each operation of a load balancer's connection does to the counters of the WaitGroups, beside
-- a request that loopWriter has in hand.
use mathlib.Core.Option.{some-injective}
use rpc_proxy.Prelude.{
  ℕ, ◌+◌, ◌≡◌, refl, sym, ap, subst, ◌∙◌, true, false, Option, none, some, List, [], ◌++◌, arith,
  ◌==◌, update, lookup, Option-cases, Bool-cases, inl, inr,
}
use rpc_proxy.Errors.{Error}
use rpc_proxy.Thrift.{Protocol, message_type_heart_beat, message_type_stop}
use rpc_proxy.Request.{new_ping_request}
use rpc_proxy.Conn.{Conn, drain}
use rpc_proxy.Conn.Accounts.{
  Accounts, places, count, count_values, values, count-values, UniqueKeys, count-++,
}
use rpc_proxy.Conn.Steps.{enqueue-Accounts, drain-Accounts, answer-Accounts}
use rpc_proxy.Conn.LoadBalancer.{
  mark_conn_active_false, push_back, push_ping, handle, fail_all, flush_requests, run_end,
  close_input,
}
use rpc_proxy.Conn.LoadBalancer.Release.{Quiet, mark-keeps, fail_all-Failed}
use rpc_proxy.Conn.LoadBalancer.System.Kept.{Kept-Quiet, push_back-Kept}

module _ {W : Type 0} where
  -- A list of requests at hand, with the same places and the same counters.
  pub same-Accounts :
      (xs ys : List ℕ) (s t : Conn W)
      → Accounts xs s
      → t.pending ≡ s.pending
      → ((x : ℕ) → count x ys + count x t.input ≡ count x xs + count x s.input)
      → ((x : ℕ) → (t.requests x).wait ≡ (s.requests x).wait)
      → Accounts ys t
  same-Accounts xs ys s t a table order waits = record {
    keys = subst UniqueKeys (sym table) a.keys;
    waits =
        λ x n h. omega (arith, a.waits x n (sym (waits x) ∙ h), order x, ap (count_values x) table);
  }

  -- PushBack
  pub push_back-Accounts :
      (xs : List ℕ) (r : ℕ) (s t : Conn W)
      → Accounts xs s
      → s.input_closed ≡ false
      → push_back r s ≡ some t
      → Accounts xs t
  unfolding push_back
  push_back-Accounts xs r s t a opened h =
      let named = record s {
        requests = update s.requests r (record (s.requests r) { service = s.service_name });
      } in
      let b = same-Accounts xs xs s named a refl (λ x. refl) (λ x. ground arith) in
      let (u, queued, c) = enqueue-Accounts xs r named b opened in
      subst (Accounts xs) (some-injective u t (sym queued ∙ h)) c

  pub ping-Accounts :
      (p : Protocol) (xs : List ℕ) (now fresh : ℕ) (s t : Conn W)
      → Accounts xs s
      → Quiet s
      → places xs s fresh ≡ 0
      → s.input_closed ≡ false
      → push_ping p now fresh s ≡ some t
      → Accounts xs t × Quiet t
  unfolding push_ping new_ping_request
  ping-Accounts p xs now fresh s t a q free opened h =
      let pinged = record s { requests = update s.requests fresh (new_ping_request p now) } in
      let b : Accounts xs pinged = record {
        keys = a.keys;
        waits = λ x n w. ground (arith, a.waits x n, w);
      } in
      let c : Quiet pinged = λ x ping. ground (arith, q x, ping) in
      (
        push_back-Accounts xs fresh pinged t b opened h,
        Kept-Quiet pinged t (push_back-Kept fresh pinged t h) c,
      )

  -- flushRequests, beside a request that loopWriter has in hand
  pub flush-Accounts :
      (xs : List ℕ) (e : Error) (s t : Conn W)
      → Accounts xs s
      → Quiet s
      → flush_requests e s ≡ some t
      → Accounts xs t
  unfolding flush_requests close_input
  flush-Accounts xs e s t a q h = elim (Option-cases (mark_conn_active_false s)) [
    | inl panics ↦ absurd (ground (arith, h, panics))
    | inr (m, marked) ↦
        let start = record s { pool = m.pool; pending = [] } in
        let shape : start ≡ record m { pending = [] } =
          ap (λ (u : Conn W). record u { pending = [] }) (sym (mark-keeps s m marked).0) in
        let table : m.pending ≡ s.pending =
          ap (λ (u : Conn W). u.pending) (mark-keeps s m marked).0 in
        let b : Accounts (values s.pending ++ xs) start = record {
          keys = tt;
          waits = λ x n w.
              omega
                (arith, a.waits x n w, count-values x s.pending, count-++ x (values s.pending) xs);
        } in
        let (u, go, f) = fail_all-Failed xs e s.pending start b q in
        let failed : fail_all e m.pending (record m { pending = [] }) ≡ some u =
          subst (λ (v : Conn W). fail_all e m.pending v ≡ some u) shape
            (subst (λ (l : List (ℕ × ℕ)). fail_all e l start ≡ some u) (sym table) go) in
        let last : t ≡ record u { input_closed = true } = ground (arith, h, marked, failed) in
        subst (Accounts xs) (sym last) (record { keys = f.accounts.keys; waits = f.accounts.waits })
  ]

  ended-Accounts :
      (e : Option Error) (m t : Conn W)
      → Accounts [] m
      → elim e as (λ _. Option (Conn W)) [ none ↦ some m | some err ↦ drain err m.input m ] ≡ some t
      → Accounts [] t
  ended-Accounts none m t a h = subst (Accounts []) (some-injective m t h) a
  ended-Accounts (some err) m t a h =
      let b : Accounts m.input (record m { input = [] }) = record {
        keys = a.keys;
        waits = λ x n w. omega (arith, a.waits x n w);
      } in
      let (u, go, c, _, _) = drain-Accounts err m.input m b in
      subst (Accounts []) (some-injective u t (sym go ∙ h)) c

  -- MarkConnActiveFalse
  mark-Accounts :
      (xs : List ℕ) (s m : Conn W)
      → Accounts xs s
      → mark_conn_active_false s ≡ some m
      → Accounts xs m
  mark-Accounts xs s m a h =
      subst (Accounts xs) (sym (mark-keeps s m h).0) (record { keys = a.keys; waits = a.waits })

  pub run_end-Accounts :
      (e : Option Error) (s t : Conn W) → Accounts [] s → run_end e s ≡ some t → Accounts [] t
  unfolding run_end
  run_end-Accounts e s t a h = elim (Option-cases (mark_conn_active_false s)) [
    | inl panics ↦ absurd (ground (arith, h, panics))
    | inr (m, marked) ↦
        ended-Accounts e m t (mark-Accounts [] s m a marked) (ground (arith, h, marked))
  ]

  -- setResponse(nil, data, nil)
  pub handle-Accounts :
      (p : Protocol) (now : ℕ) (bytes xs : List ℕ) (b : ℕ × ℕ × Option Error) (s t : Conn W)
      (e : Option Error)
      → Accounts xs s
      → (b.0 ≡ message_type_heart_beat
          → (r : ℕ) → lookup b.1 s.pending ≡ some r
          → (s.requests r).wait ≡ none)
      → handle p now bytes b s ≡ some (t, e)
      → Accounts xs t
  unfolding handle
  handle-Accounts p now bytes xs (type_id, seq_id, some err) s t e a honest h =
      let last : s ≡ t = ground (arith, h) in subst (Accounts xs) last a
  handle-Accounts p now bytes xs (type_id, seq_id, none) s t e a honest h =
      elim (Bool-cases (type_id == message_type_stop)) [
        | inl stopping ↦ elim (Option-cases (mark_conn_active_false s)) [
          | inl panics ↦ absurd (ground (arith, h, stopping, panics))
          | inr (m, marked) ↦
              let last : m ≡ t = ground (arith, h, stopping, marked) in
              subst (Accounts xs) last (mark-Accounts xs s m a marked)
        ]
        | inr other ↦
            let (u, f, go, c) = answer-Accounts p xs now type_id seq_id bytes s a honest in
            let last : u ≡ t = ground (arith, h, other, go) in subst (Accounts xs) last c
      ]
