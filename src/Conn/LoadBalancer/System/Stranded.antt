-- ===== src/Conn/LoadBalancer/System/Stranded.antt =====
-- A request that is entered into the table after loopReader has ended.
use rpc_proxy.Prelude.{
  ℕ, ◌≡◌, ◌≢◌, refl, sym, ap, ◌∙◌, false, Option, none, some, List, [], ◌∷◌, arith, update, lookup,
  insert, lookup-insert, Option-cases, inl, inr,
}
use rpc_proxy.Errors.{Error}
use rpc_proxy.Thrift.{Protocol}
use rpc_proxy.Framing.Output.{Sink}
use rpc_proxy.Request.{new_ping_request}
use rpc_proxy.Conn.{Conn, drain, enqueue, set_response_failed}
use rpc_proxy.Conn.Accounts.{erase_present}
use rpc_proxy.Conn.LoadBalancer.{mark_conn_active_false, push_back, push_ping, run_end}
use rpc_proxy.Conn.LoadBalancer.Release.{mark-keeps}
use rpc_proxy.Conn.LoadBalancer.System.{
  System, Writer, after_flush, send_frame, Step, push, tick_ping, tick_end, tick_late,
  tick_time_out, receive, closed, skip, send, enter, finish, read, break, Reach, here, next,
}
use rpc_proxy.Conn.LoadBalancer.System.Reached.{Inv, Reach-Inv}

enter_keeps :
    (n j r x : ℕ) (m : List (ℕ × ℕ))
    → lookup n m ≡ some x
    → lookup j m ≡ none
    → lookup n (insert j r m) ≡ some x
enter_keeps n j r x m h free = ground (arith, lookup-insert j n r m, h, free)

module _ {W : Type 0} where
  pub push_back_keeps : (r : ℕ) (s t : Conn W) → push_back r s ≡ some t → t.pending ≡ s.pending
  unfolding push_back enqueue
  push_back_keeps r s t h = ground (arith, h)

  pub push_ping_keeps :
      (p : Protocol) (now fresh : ℕ) (s t : Conn W)
      → push_ping p now fresh s ≡ some t
      → t.pending ≡ s.pending
  unfolding push_ping
  push_ping_keeps p now fresh s t h =
      push_back_keeps fresh
        (record s { requests = update s.requests fresh (new_ping_request p now) }) t h

  failed_keeps :
      (r : ℕ) (e : Error) (s t : Conn W) (f : Option Error)
      → set_response_failed r e s ≡ some (t, f)
      → t.pending ≡ s.pending
  unfolding set_response_failed
  failed_keeps r e s t f h = ground (arith, h)

  pub drain_keeps :
      (e : Error) (rs : List ℕ) (s t : Conn W) → drain e rs s ≡ some t → t.pending ≡ s.pending
  unfolding drain
  drain_keeps e [] s t h = ground (arith, h)
  drain_keeps e (r ∷ rs) s t h = elim (Option-cases (set_response_failed r e s)) [
    | inl panics ↦ absurd (ground (arith, h, panics))
    | inr ((u, f), failed) ↦
        drain_keeps e rs u t (ground (arith, h, failed)) ∙ failed_keeps r e s u f failed
  ]

  rest_keeps :
      (e : Option Error) (m t : Conn W)
      → elim e as (λ _. Option (Conn W)) [ none ↦ some m | some err ↦ drain err m.input m ] ≡ some t
      → t.pending ≡ m.pending
  rest_keeps none m t h = ground (arith, h)
  rest_keeps (some err) m t h = drain_keeps err m.input m t h

  pub run_end_keeps :
      (e : Option Error) (s t : Conn W) → run_end e s ≡ some t → t.pending ≡ s.pending
  unfolding run_end
  run_end_keeps e s t h = elim (Option-cases (mark_conn_active_false s)) [
    | inl panics ↦ absurd (ground (arith, h, panics))
    | inr (m, marked) ↦
        rest_keeps e m t (ground (arith, h, marked))
        ∙ ap (λ (u : Conn W). u.pending) (mark-keeps s m marked).0
  ]

  pub after_flush_keeps :
      (r : ℕ) (s t : Conn W) (e : Option Error) (w : Writer)
      → after_flush r (s, e) ≡ some (t, w)
      → t.pending ≡ s.pending
  after_flush_keeps r s t none w h = ground (arith, h)
  after_flush_keeps r s t (some e) w h = elim (Option-cases (set_response_failed r e s)) [
    | inl panics ↦ absurd (ground (arith, h, panics))
    | inr ((u, f), failed) ↦
        let last : u ≡ t = ground (arith, h, failed) in
        ap (λ (v : Conn W). v.pending) (sym last) ∙ failed_keeps r e s u f failed
  ]

module _ (k : Sink) (p : Protocol) where
  open k use {W}

  pub sent_keeps :
      (now later r : ℕ) (s t : Conn W) (e : Option Error)
      → send_frame k p now later r s ≡ some (t, e)
      → t.pending ≡ s.pending
  unfolding send_frame
  sent_keeps now later r s t e h = ground (arith, h)

  abbrev Standing : ℕ → ℕ → System W → Type 0
  Standing n r s = (s.reading ≡ false) × (lookup n s.conn.pending ≡ some r)

  same_table :
      (n r : ℕ) (s t : System W)
      → Standing n r s
      → t.reading ≡ s.reading
      → t.conn.pending ≡ s.conn.pending
      → Standing n r t
  same_table n r s t h reader table = (reader ∙ h.0, ap (lookup n) table ∙ h.1)

  step_keeps : (n r : ℕ) (s t : System W) → Standing n r s → Step k p s t → Standing n r t
  step_keeps n r s t h (push {t = u} x other room opened go) =
      same_table n r s t h refl (push_back_keeps x s.conn u go)
  step_keeps n r s t h (tick_ping {t = u} now fresh beats beat free room opened go) =
      same_table n r s t h refl (push_ping_keeps p now fresh s.conn u go)
  step_keeps n r s t h (tick_end now beats stops) = h
  step_keeps n r s t h (tick_late now beats late) = h
  step_keeps n r s t h (tick_time_out sends at_select) = h
  step_keeps n r s t h (receive x rest at_select front) = h
  step_keeps n r s t h (closed at_select empty shut) = h
  step_keeps n r s t h (skip unix x has old) = h
  step_keeps n r s t h (send {t = u} {u = v} {e = e} {w = w} unix now later x has keep go after) =
      same_table n r s t h refl
        (after_flush_keeps x u v e w after ∙ sent_keeps now later x s.conn u e go)
  step_keeps n r s t h (enter x has free) =
      (h.0, enter_keeps n (s.conn.requests x).response_seq_id x r s.conn.pending h.1 free)
  step_keeps n r s t h (finish {t = u} e beats left_so go) =
      same_table n r s t h refl (run_end_keeps e s.conn u go)
  step_keeps n r s t h (read now bytes runs honest go) = absurd (ground (arith, h.0, runs))
  step_keeps n r s t h (break e runs go) = absurd (ground (arith, h.0, runs))

  reach_keeps : (n r : ℕ) (s t : System W) → Standing n r s → Reach k p s t → Standing n r t
  reach_keeps n r s t h here = h
  reach_keeps n r s t h (next {t = m} before step) =
      step_keeps n r m t (reach_keeps n r s m h before) step

  -- loopReader has failed the table's requests and ended, and only then did loopWriter enter its
  -- request. From a state where that has happened, and where each WaitGroup counts the places of its
  -- request and nobody waits for a heartbeat, whatever steps follow: the request stands in the table
  -- for good, and its WaitGroup does not come to zero. Whoever waits for it waits for ever.
  pub stranded :
      (n r : ℕ) (s t : System W)
      → Inv s
      → s.reading ≡ false
      → lookup n s.conn.pending ≡ some r
      → Reach k p s t
      → (lookup n t.conn.pending ≡ some r) × ((t.conn.requests r).wait ≢ some 0)
  stranded n r s t i ended entered steps =
      let stands = reach_keeps n r s t (ended, entered) steps in
      let j = Reach-Inv k p s t i steps in
      (
        stands.1,
        λ z. ground (
          arith,
          j.accounts.waits r 0 z,
          erase_present n r r t.conn.pending j.accounts.keys stands.1,
        ),
      )
