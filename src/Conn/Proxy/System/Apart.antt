-- ===== src/Conn/Proxy/System/Apart.antt =====
-- What each operation of a proxy's connection that is not active does to the service's list: nothing.
use rpc_proxy.Prelude.{
  ℕ, ◌≡◌, sym, ap, ap₂, ◌∙◌, Bool, true, false, not, Option, none, some, List, [], ◌∷◌, arith,
  update, lookup, erase, Option-cases, Bool-cases, inl, inr, ◌==◌, subst,
}
use rpc_proxy.Errors.{Error}
use rpc_proxy.Thrift.{Protocol, message_type_heart_beat}
use rpc_proxy.Framing.Output.{Sink}
use rpc_proxy.Request.{decode_thrift_typ_id_seq_id, new_ping_request}
use rpc_proxy.Pool.{Pool}
use rpc_proxy.Pool.Invariant.{Inv}
use rpc_proxy.Pool.Removal.{member, state_changed-Updated}
use rpc_proxy.Conn.{Conn, enqueue, done, drain, set_response_failed, answer, complete}
use rpc_proxy.Conn.LoadBalancer.System.{Writer, after_flush, send_frame}
use rpc_proxy.Conn.Proxy.{
  set_active, push_back, push_ping, mark_conn_active_false, mark_offline, close_input, handle,
  set_response, fail_all, flush_requests, run_end,
}

module _ {W : Type 0} where
  -- IsConnActive
  abbrev pub active : Conn W → Bool
  active s = s.pool.is_conn_active s.self

  -- An operation that leaves the list and the connection's own place in it alone.
  abbrev pub Apart : Conn W → Conn W → Type 0
  Apart s t = (t.pool ≡ s.pool) × (t.self ≡ s.self)

  pub Apart-active : (s t : Conn W) → Apart s t → active s ≡ false → active t ≡ false
  Apart-active s t (pool, self) off = ap₂ (λ (q : Pool) (c : ℕ). q.is_conn_active c) pool self ∙ off

  pub Apart-trans : (s t u : Conn W) → Apart s t → Apart t u → Apart s u
  Apart-trans s t u (a, b) (c, d) = (c ∙ a, d ∙ b)

  -- MarkConnActiveFalse on an active connection of a list in order takes it out of the list.
  pub taken_out :
      (s m : Conn W)
      → Inv s.pool
      → active s ≡ true
      → mark_conn_active_false s ≡ some m
      → (active m ≡ false) × (member m.pool m.self ≡ false)
  unfolding mark_conn_active_false set_active
  taken_out s m i on h =
      let off = record s.pool { is_conn_active = update s.pool.is_conn_active s.self false } in
      let (pool, changed, u) =
        state_changed-Updated s.self off (record { listed = i.listed; placed = i.placed }) in
      let last : record s { pool = pool } ≡ m = ground (arith, h, on, changed) in
      let states : pool.is_conn_active s.self ≡ false =
        ground (arith, ap (λ f. f s.self) u.same_states) in
      let members : member pool s.self ≡ false = ground (arith, u.members s.self) in
      subst (λ (v : Conn W). (active v ≡ false) × (member v.pool v.self ≡ false)) last
        (states, members)

  pub push_back-Apart : (r : ℕ) (s t : Conn W) → push_back r s ≡ some t → Apart s t
  unfolding push_back enqueue
  push_back-Apart r s t h = (ground (arith, h), ground (arith, h))

  pub ping-Apart :
      (p : Protocol) (now fresh : ℕ) (s t : Conn W) → push_ping p now fresh s ≡ some t → Apart s t
  unfolding push_ping
  ping-Apart p now fresh s t h =
      push_back-Apart fresh
        (record s { requests = update s.requests fresh (new_ping_request p now) }) t h

  pub mark_again : (s t : Conn W) → active s ≡ false → mark_conn_active_false s ≡ some t → s ≡ t
  unfolding mark_conn_active_false
  mark_again s t off h = ground (arith, off, h)

  pub offline-Apart : (s t : Conn W) → active s ≡ false → mark_offline s ≡ some t → Apart s t
  unfolding mark_offline close_input
  offline-Apart s t off h = elim (Bool-cases s.is_mark_offline) [
    | inl marked ↦ (ground (arith, h, marked), ground (arith, h, marked))
    | inr fresh ↦
        elim (Option-cases (mark_conn_active_false (record s { is_mark_offline = true }))) [
          | inl panics ↦ absurd (ground (arith, h, fresh, panics))
          | inr (m, marked) ↦
              let same = mark_again (record s { is_mark_offline = true }) m off marked in
              let pools : m.pool ≡ s.pool = ap (λ (u : Conn W). u.pool) (sym same) in
              let selves : m.self ≡ s.self = ap (λ (u : Conn W). u.self) (sym same) in
              (ground (arith, h, fresh, marked, pools), ground (arith, h, fresh, marked, selves))
        ]
  ]

  pub complete-Apart :
      (p : Protocol) (type_id : ℕ) (bytes : List ℕ) (r : ℕ) (s t : Conn W) (e : Option Error)
      → complete p type_id bytes r s ≡ some (t, e)
      → Apart s t
  unfolding complete
  complete-Apart p type_id bytes r s t e h = (ground (arith, h), ground (arith, h))

  pub answer-Apart :
      (p : Protocol) (now type_id seq_id : ℕ) (bytes : List ℕ) (s t : Conn W) (e : Option Error)
      → answer p now type_id seq_id bytes s ≡ some (t, e)
      → Apart s t
  unfolding answer
  answer-Apart p now type_id seq_id bytes s t e h =
      elim (Bool-cases (type_id == message_type_heart_beat)) [
        | inl beat ↦ (ground (arith, h, beat), ground (arith, h, beat))
        | inr other ↦ elim (Option-cases (lookup seq_id s.pending)) [
          | inl missing ↦ (ground (arith, h, other, missing), ground (arith, h, other, missing))
          | inr (r, found) ↦
              complete-Apart p type_id bytes r (record s { pending = erase seq_id s.pending }) t e
                (ground (arith, h, other, found))
        ]
      ]

  pub handle-Apart :
      (p : Protocol) (now : ℕ) (bytes : List ℕ) (a : ℕ × ℕ × Option Error) (s t : Conn W)
      (e : Option Error)
      → handle p now bytes a s ≡ some (t, e)
      → Apart s t
  unfolding handle
  handle-Apart p now bytes (type_id, seq_id, some err) s t e h =
      (ground (arith, h), ground (arith, h))
  handle-Apart p now bytes (type_id, seq_id, none) s t e h =
      answer-Apart p now type_id seq_id bytes s t e h

  pub set_response-Apart :
      (p : Protocol) (now : ℕ) (bytes : List ℕ) (s t : Conn W) (e : Option Error)
      → set_response p now bytes s ≡ some (t, e)
      → Apart s t
  unfolding set_response
  set_response-Apart p now bytes s t e h =
      handle-Apart p now bytes (decode_thrift_typ_id_seq_id p bytes) s t e h

  pub fail_all-Apart :
      (e : Error) (m : List (ℕ × ℕ)) (s t : Conn W) → fail_all e m s ≡ some t → Apart s t
  unfolding fail_all
  fail_all-Apart e [] s t h = (ground (arith, h), ground (arith, h))
  fail_all-Apart e ((k, r) ∷ m) s t h =
      elim (Option-cases (done (record (s.requests r) { response_err = some e }))) [
        | inl panics ↦ absurd (ground (arith, h, panics))
        | inr (q, d) ↦
            let (a, b) =
              fail_all-Apart e m (record s { requests = update s.requests r q }) t
                (ground (arith, h, d)) in
            (a, b)
      ]

  pub flush-Apart :
      (e : Error) (s t : Conn W) → active s ≡ false → flush_requests e s ≡ some t → Apart s t
  unfolding flush_requests
  flush-Apart e s t off h = elim (Option-cases (mark_conn_active_false s)) [
    | inl panics ↦ absurd (ground (arith, h, panics))
    | inr (m, marked) ↦
        let same = mark_again s m off marked in
        let (a, b) =
          fail_all-Apart e m.pending (record m { pending = [] }) t (ground (arith, h, marked)) in
        (a ∙ ap (λ (u : Conn W). u.pool) (sym same), b ∙ ap (λ (u : Conn W). u.self) (sym same))
  ]

  pub failed-Apart :
      (r : ℕ) (e : Error) (s t : Conn W) (f : Option Error)
      → set_response_failed r e s ≡ some (t, f)
      → Apart s t
  unfolding set_response_failed
  failed-Apart r e s t f h = (ground (arith, h), ground (arith, h))

  pub drain-Apart : (e : Error) (rs : List ℕ) (s t : Conn W) → drain e rs s ≡ some t → Apart s t
  unfolding drain
  drain-Apart e [] s t h = (ground (arith, h), ground (arith, h))
  drain-Apart e (r ∷ rs) s t h = elim (Option-cases (set_response_failed r e s)) [
    | inl panics ↦ absurd (ground (arith, h, panics))
    | inr ((u, f), failed) ↦
        Apart-trans s u t (failed-Apart r e s u f failed)
          (drain-Apart e rs u t (ground (arith, h, failed)))
  ]

  pub rest-Apart :
      (e : Option Error) (m t : Conn W) (again : Bool)
      → elim e as (λ _. Option (Conn W × Bool)) [
        | none ↦ some (m, false)
        | some err ↦ elim (drain err m.input m) [
          | none ↦ none
          | some u ↦ some (u, not u.is_mark_offline)
        ]
      ]
        ≡ some (t, again)
      → Apart m t
  rest-Apart none m t again h = (ground (arith, h), ground (arith, h))
  rest-Apart (some err) m t again h = elim (Option-cases (drain err m.input m)) [
    | inl panics ↦ absurd (ground (arith, h, panics))
    | inr (u, drained) ↦
        let last : u ≡ t = ground (arith, h, drained) in
        subst (Apart m) last (drain-Apart err m.input m u drained)
  ]

  pub run_end-Apart :
      (e : Option Error) (s t : Conn W) (again : Bool)
      → active s ≡ false
      → run_end e s ≡ some (t, again)
      → Apart s t
  unfolding run_end
  run_end-Apart e s t again off h = elim (Option-cases (mark_conn_active_false s)) [
    | inl panics ↦ absurd (ground (arith, h, panics))
    | inr (m, marked) ↦
        let same = mark_again s m off marked in
        let (a, b) = rest-Apart e m t again (ground (arith, h, marked)) in
        (a ∙ ap (λ (u : Conn W). u.pool) (sym same), b ∙ ap (λ (u : Conn W). u.self) (sym same))
  ]

  pub after_flush-Apart :
      (r : ℕ) (s t : Conn W) (e : Option Error) (w : Writer)
      → after_flush r (s, e) ≡ some (t, w)
      → Apart s t
  after_flush-Apart r s t none w h = (ground (arith, h), ground (arith, h))
  after_flush-Apart r s t (some e) w h = elim (Option-cases (set_response_failed r e s)) [
    | inl panics ↦ absurd (ground (arith, h, panics))
    | inr ((u, f), failed) ↦
        let last : u ≡ t = ground (arith, h, failed) in
        subst (Apart s) last (failed-Apart r e s u f failed)
  ]

module _ (k : Sink) (p : Protocol) where
  open k use {W}

  pub send_frame-Apart :
      (now later r : ℕ) (s t : Conn W) (e : Option Error)
      → send_frame k p now later r s ≡ some (t, e)
      → Apart s t
  unfolding send_frame
  send_frame-Apart now later r s t e h = (ground (arith, h), ground (arith, h))
