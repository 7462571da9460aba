-- ===== src/Conn/Proxy/System/Counters.antt =====
-- What each operation of a proxy's connection does to the requests and to the counters of the
-- WaitGroups, beside a request that loopWriter has in hand.
use mathlib.Core.Option.{some-injective}
use rpc_proxy.Prelude.{
  ℕ, ◌≡◌, refl, sym, ap, ◌∙◌, Bool, true, false, not, Option, none, some, List, [], ◌∷◌, ◌++◌,
  arith, update, lookup, Option-cases, Bool-cases, inl, inr, subst,
}
use rpc_proxy.Errors.{Error}
use rpc_proxy.Thrift.{Protocol, message_type_heart_beat}
use rpc_proxy.Request.{Request, new_ping_request}
use rpc_proxy.Conn.{Conn, done, drain}
use rpc_proxy.Conn.Accounts.{Accounts, places, count, values, count-values, count-++}
use rpc_proxy.Conn.Steps.{enqueue-Accounts, drain-Accounts, answer-Accounts}
use rpc_proxy.Conn.LoadBalancer.Release.{Quiet}
use rpc_proxy.Conn.LoadBalancer.System.Kept.{
  Same, Kept, Kept-trans, Kept-Quiet, one-Kept, enqueue-Kept, answer-Kept, drain-Kept, done-Same,
}
use rpc_proxy.Conn.LoadBalancer.System.Counters.{same-Accounts}
use rpc_proxy.Conn.Proxy.{
  set_active, push_back, push_ping, mark_conn_active_false, mark_conn_active_ok, mark_offline,
  close_input, handle, fail_all, flush_requests, run_end,
}
use rpc_proxy.Conn.Proxy.Release.{fail_all-Failed}

module _ {W : Type 0} where
  -- A step that touches neither the requests nor where they stand.
  abbrev pub SamePlaces : Conn W → Conn W → Type 0
  SamePlaces s t = (t.requests ≡ s.requests) × (t.input ≡ s.input) × (t.pending ≡ s.pending)

  pub SamePlaces-Kept : (s t : Conn W) → SamePlaces s t → Kept s t
  SamePlaces-Kept s t (requests, _, _) x =
      let at_x : t.requests x ≡ s.requests x = ap (λ (f : ℕ → Request). f x) requests in
      (ap (λ (q : Request). q.type_id) at_x, λ w. ap (λ (q : Request). q.wait) at_x ∙ w)

  pub SamePlaces-Accounts :
      (xs : List ℕ) (s t : Conn W) → SamePlaces s t → Accounts xs s → Accounts xs t
  SamePlaces-Accounts xs s t (requests, input, pending) a =
      same-Accounts xs xs s t a pending (λ x. omega (arith, ap (count x) input))
        (λ x. ap (λ (f : ℕ → Request). (f x).wait) requests)

  set_active_places : (b : Bool) (s t : Conn W) → set_active b s ≡ some t → SamePlaces s t
  unfolding set_active
  set_active_places b s t h = (ground (arith, h), ground (arith, h), ground (arith, h))

  pub mark_places : (s t : Conn W) → mark_conn_active_false s ≡ some t → SamePlaces s t
  unfolding mark_conn_active_false
  mark_places s t h = elim (Bool-cases (s.pool.is_conn_active s.self)) [
    | inl on ↦ set_active_places false s t (ground (arith, h, on))
    | inr off ↦ (ground (arith, h, off), ground (arith, h, off), ground (arith, h, off))
  ]

  pub offline_places : (s t : Conn W) → mark_offline s ≡ some t → SamePlaces s t
  unfolding mark_offline close_input
  offline_places s t h = elim (Bool-cases s.is_mark_offline) [
    | inl marked ↦ (ground (arith, h, marked), ground (arith, h, marked), ground (arith, h, marked))
    | inr fresh ↦
        elim (Option-cases (mark_conn_active_false (record s { is_mark_offline = true }))) [
          | inl panics ↦ absurd (ground (arith, h, fresh, panics))
          | inr (m, marked) ↦
              let (a, b, c) = mark_places (record s { is_mark_offline = true }) m marked in
              (
                ground (arith, h, fresh, marked, a),
                ground (arith, h, fresh, marked, b),
                ground (arith, h, fresh, marked, c),
              )
        ]
  ]

  pub ok_places : (s t : Conn W) → mark_conn_active_ok s ≡ some t → SamePlaces s t
  unfolding mark_conn_active_ok
  ok_places s t h = set_active_places true s t h

  -- PushBack
  pub push_back-Kept : (r : ℕ) (s t : Conn W) → push_back r s ≡ some t → Kept s t
  unfolding push_back
  push_back-Kept r s t h = enqueue-Kept r s t h

  pub push_back-Accounts :
      (xs : List ℕ) (r : ℕ) (s t : Conn W)
      → Accounts xs s
      → s.input_closed ≡ false
      → push_back r s ≡ some t
      → Accounts xs t
  unfolding push_back
  push_back-Accounts xs r s t a opened h =
      let (u, queued, c) = enqueue-Accounts xs r s a opened in
      subst (Accounts xs) (some-injective u t (sym queued ∙ h)) c

  pub ping-Accounts :
      (p : Protocol) (xs : List ℕ) (now fresh : ℕ) (s t : Conn W)
      → Accounts xs s
      → Quiet s
      → places xs s fresh ≡ 0
      → s.input_closed ≡ false
      → push_ping p now fresh s ≡ some t
      → Accounts xs t × Quiet t
  unfolding push_ping new_ping_request
  ping-Accounts p xs now fresh s t a q free opened h =
      let pinged = record s { requests = update s.requests fresh (new_ping_request p now) } in
      let b : Accounts xs pinged = record {
        keys = a.keys;
        waits = λ x n w. ground (arith, a.waits x n, w);
      } in
      let c : Quiet pinged = λ x ping. ground (arith, q x, ping) in
      (
        push_back-Accounts xs fresh pinged t b opened h,
        Kept-Quiet pinged t (push_back-Kept fresh pinged t h) c,
      )

  fail_all-Kept : (e : Error) (m : List (ℕ × ℕ)) (s t : Conn W) → fail_all e m s ≡ some t → Kept s t
  unfolding fail_all
  fail_all-Kept e [] s t h = λ x. (ground (arith, h), λ w. ground (arith, h, w))
  fail_all-Kept e ((k, r) ∷ m) s t h =
      elim (Option-cases (done (record (s.requests r) { response_err = some e }))) [
        | inl panics ↦ absurd (ground (arith, h, panics))
        | inr (q, d) ↦
            let u = record s { requests = update s.requests r q } in
            let same : Same (s.requests r) q =
              done-Same (record (s.requests r) { response_err = some e }) q d in
            Kept-trans s u t (one-Kept s u r q refl same)
              (fail_all-Kept e m u t (ground (arith, h, d)))
      ]

  -- flushRequests
  pub flush-Kept : (e : Error) (s t : Conn W) → flush_requests e s ≡ some t → Kept s t
  unfolding flush_requests
  flush-Kept e s t h = elim (Option-cases (mark_conn_active_false s)) [
    | inl panics ↦ absurd (ground (arith, h, panics))
    | inr (m, marked) ↦
        Kept-trans s m t (SamePlaces-Kept s m (mark_places s m marked))
          λ x. fail_all-Kept e m.pending (record m { pending = [] }) t (ground (arith, h, marked)) x
  ]

  pub flush-Accounts :
      (xs : List ℕ) (e : Error) (s t : Conn W)
      → Accounts xs s
      → flush_requests e s ≡ some t
      → Accounts xs t
  unfolding flush_requests
  flush-Accounts xs e s t a h = elim (Option-cases (mark_conn_active_false s)) [
    | inl panics ↦ absurd (ground (arith, h, panics))
    | inr (m, marked) ↦
        let c = SamePlaces-Accounts xs s m (mark_places s m marked) a in
        let b : Accounts (values m.pending ++ xs) (record m { pending = [] }) = record {
          keys = tt;
          waits = λ x n w.
              omega
                (arith, c.waits x n w, count-values x m.pending, count-++ x (values m.pending) xs);
        } in
        let (u, go, f) = fail_all-Failed xs e m.pending (record m { pending = [] }) b in
        let last : u ≡ t = ground (arith, h, marked, go) in subst (Accounts xs) last f.accounts
  ]

  rest_ends :
      (e : Option Error) (m t : Conn W) (again : Bool)
      → elim e as (λ _. Option (Conn W × Bool)) [
        | none ↦ some (m, false)
        | some err ↦ elim (drain err m.input m) [
          | none ↦ none
          | some u ↦ some (u, not u.is_mark_offline)
        ]
      ]
        ≡ some (t, again)
      → Accounts [] m
      → Accounts [] t × Kept m t
  rest_ends none m t again h a =
      let last : m ≡ t = ground (arith, h) in
      (subst (Accounts []) last a, λ x. (ground (arith, h), λ w. ground (arith, h, w)))
  rest_ends (some err) m t again h a =
      let b : Accounts m.input (record m { input = [] }) = record {
        keys = a.keys;
        waits = λ x n w. omega (arith, a.waits x n w);
      } in
      let (u, go, c, _, _) = drain-Accounts err m.input m b in
      let last : u ≡ t = ground (arith, h, go) in
      (subst (Accounts []) last c, subst (Kept m) last (drain-Kept err m.input m u go))

  -- The end of a round of Run
  pub run_end-Accounts :
      (e : Option Error) (s t : Conn W) (again : Bool)
      → Accounts [] s
      → run_end e s ≡ some (t, again)
      → Accounts [] t × Kept s t
  unfolding run_end
  run_end-Accounts e s t again a h = elim (Option-cases (mark_conn_active_false s)) [
    | inl panics ↦ absurd (ground (arith, h, panics))
    | inr (m, marked) ↦
        let same = mark_places s m marked in
        let (b, kept) =
          rest_ends e m t again (ground (arith, h, marked)) (SamePlaces-Accounts [] s m same a) in
        (b, Kept-trans s m t (SamePlaces-Kept s m same) kept)
  ]

  -- setResponse(nil, data, nil)
  pub handle-Accounts :
      (p : Protocol) (now : ℕ) (bytes xs : List ℕ) (b : ℕ × ℕ × Option Error) (s t : Conn W)
      (e : Option Error)
      → Accounts xs s
      → (b.0 ≡ message_type_heart_beat
          → (r : ℕ) → lookup b.1 s.pending ≡ some r
          → (s.requests r).wait ≡ none)
      → handle p now bytes b s ≡ some (t, e)
      → Accounts xs t × Kept s t
  unfolding handle
  handle-Accounts p now bytes xs (type_id, seq_id, some err) s t e a honest h =
      let last : s ≡ t = ground (arith, h) in
      (subst (Accounts xs) last a, λ x. (ground (arith, h), λ w. ground (arith, h, w)))
  handle-Accounts p now bytes xs (type_id, seq_id, none) s t e a honest h =
      let (u, f, go, c) = answer-Accounts p xs now type_id seq_id bytes s a honest in
      let last : u ≡ t = ground (arith, h, go) in
      (subst (Accounts xs) last c, answer-Kept p now type_id seq_id bytes s t e h)
