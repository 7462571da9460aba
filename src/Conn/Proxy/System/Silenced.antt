-- ===== src/Conn/Proxy/System/Silenced.antt =====
-- An old loopReader takes the new connection out of the service's list.
use rpc_proxy.Prelude.{ℕ, ◌≡◌, refl, ap₂, ◌∙◌, true, false, some, [], arith, Option-cases, inl, inr}
use rpc_proxy.Errors.{Error}
use rpc_proxy.Thrift.{Protocol}
use rpc_proxy.Framing.Output.{Sink}
use rpc_proxy.Pool.{Pool}
use rpc_proxy.Pool.Invariant.{Inv}
use rpc_proxy.Pool.Removal.{member}
use rpc_proxy.Conn.{Conn}
use rpc_proxy.Conn.LoadBalancer.System.{Writer}
use rpc_proxy.Conn.Proxy.{mark_conn_active_false, flush_requests}
use rpc_proxy.Conn.Proxy.System.{
  System, looping, Step, push, tick_ping, offline, connect, give_up, tick_end, tick_late,
  tick_time_out, receive, closed, skip, send, enter, finish, read, break, During, at_once,
  then_step,
}
use rpc_proxy.Conn.Proxy.System.Apart.{
  Apart-active, Apart-trans, active, Apart, taken_out, push_back-Apart, ping-Apart, offline-Apart,
  set_response-Apart, fail_all-Apart, flush-Apart, run_end-Apart, after_flush-Apart,
  send_frame-Apart,
}

module _ (k : Sink) (p : Protocol) where
  open k use {W}

  step-Apart :
      (w : Writer) (s t : System W)
      → active s.conn ≡ false
      → s.phase ≡ looping w
      → Step k p s t
      → Apart s.conn t.conn
  step-Apart w s t off loops (push {t = u} r other room opened h) = push_back-Apart r s.conn u h
  step-Apart w s t off loops (tick_ping {t = u} now fresh beats beat free room opened h) =
      ping-Apart p now fresh s.conn u h
  step-Apart w s t off loops (offline {t = u} h) = offline-Apart s.conn u off h
  step-Apart w s t off loops (connect now c opens h) = absurd (ground (arith, loops, opens))
  step-Apart w s t off loops (give_up opens) = (refl, refl)
  step-Apart w s t off loops (tick_end now beats stops) = (refl, refl)
  step-Apart w s t off loops (tick_late now beats late) = (refl, refl)
  step-Apart w s t off loops (tick_time_out sends at_select) = (refl, refl)
  step-Apart w s t off loops (receive r rest at_select front) = (refl, refl)
  step-Apart w s t off loops (closed at_select empty shut) = (refl, refl)
  step-Apart w s t off loops (skip unix r has old) = (refl, refl)
  step-Apart w s t off loops (send {t = u} {u = v} {e = e} {w = x} unix now later r has keep go h) =
      Apart-trans s.conn u v (send_frame-Apart k p now later r s.conn u e go)
        (after_flush-Apart r u v e x h)
  step-Apart w s t off loops (enter r has free) = (refl, refl)
  step-Apart w s t off loops (finish {t = u} {again = again} e beats left_so h) =
      run_end-Apart e s.conn u again off h
  step-Apart w s t off loops (read {t = u} {e = e} now n bytes runs honest h) =
      set_response-Apart p now bytes s.conn u e h
  step-Apart w s t off loops (break {t = u} n e runs h) = flush-Apart e s.conn u off h

  during-Apart : (s t : System W) → active s.conn ≡ false → During k p s t → Apart s.conn t.conn
  during-Apart s t off at_once = (refl, refl)
  during-Apart s t off (then_step {t = m} w before loops step) =
      let a = during-Apart s m off before in
      Apart-trans s.conn m.conn t.conn a
        (step-Apart w m t (Apart-active s.conn m.conn a off) loops step)

  broken :
      (e : Error) (s c : Conn W)
      → Inv s.pool
      → active s ≡ true
      → flush_requests e s ≡ some c
      → (active c ≡ false) × (member c.pool c.self ≡ false)
  unfolding flush_requests
  broken e s c i on h = elim (Option-cases (mark_conn_active_false s)) [
    | inl panics ↦ absurd (ground (arith, h, panics))
    | inr (m, marked) ↦
        let (off, out) = taken_out s m i on marked in
        let (pools, selves) =
          fail_all-Apart e m.pending (record m { pending = [] }) c (ground (arith, h, marked)) in
        (
          ap₂ (λ (q : Pool) (x : ℕ). q.is_conn_active x) pools selves ∙ off,
          ap₂ member pools selves ∙ out,
        )
  ]

  -- A loopReader fails while a connection of a list in order is active and in use, be it the loopReader
  -- of an earlier transport, whose end came late: after its flushRequests, and for as long as
  -- loopWriter goes on with the present transport, the connection is not active and not in the
  -- service's list, whatever else happens: it gets no request any more.
  pub silenced :
      (s t : System W) (c : Conn W) (n : ℕ) (e : Error)
      → Inv s.conn.pool
      → active s.conn ≡ true
      → flush_requests e s.conn ≡ some c
      → During k p (record s { conn = c; readers = n }) t
      → (active t.conn ≡ false) × (member t.conn.pool t.conn.self ≡ false)
  silenced s t c n e i on h steps =
      let (off, out) = broken e s.conn c i on h in
      let a = during-Apart (record s { conn = c; readers = n }) t off steps in
      (Apart-active c t.conn a off, ap₂ member a.0 a.1 ∙ out)
