-- ===== src/Conn/Proxy/System/Late.antt =====
-- MarkOffline while ensureConn is opening a transport: Open succeeds all the same, and loopWriter makes
-- the connection active before it looks at the queue.
use rpc_proxy.Prelude.{ℕ, suc, ◌≡◌, refl, true, false, none, some, arith, update}
use rpc_proxy.Thrift.{Protocol}
use rpc_proxy.Framing.{Transport}
use rpc_proxy.Framing.Output.{Sink}
use rpc_proxy.Pool.{Pool}
use rpc_proxy.Pool.Invariant.{Inv}
use rpc_proxy.Pool.Removal.{member, state_changed-Updated}
use rpc_proxy.Conn.{Conn, enqueue}
use rpc_proxy.Conn.LoadBalancer.System.{selecting, ticking}
use rpc_proxy.Conn.Proxy.{
  mark_offline, mark_conn_active_ok, mark_conn_active_false, set_active, close_input, push_back,
}
use rpc_proxy.Conn.Proxy.System.{System, Step, opening, looping, offline, connect}

module _ {W : Type 0} where
  -- The connection is not connected, and nobody has marked it offline.
  pub record Unconnected (s : Conn W) : Type 0 where
    pub agrees : Inv s.pool
    pub inactive : s.pool.is_conn_active s.self ≡ false
    pub wanted : s.is_mark_offline ≡ false
    pub accepts : s.input_closed ≡ false

  abbrev marked : Conn W → Conn W
  marked s = record s { is_mark_offline = true; input_closed = true }

  marks : (s : Conn W) → Unconnected s → mark_offline s ≡ some (marked s)
  unfolding mark_offline mark_conn_active_false close_input
  marks s h = ground (arith, h.inactive, h.wanted, h.accepts)

  revives :
      (s : Conn W)
      → Unconnected s
      → (q : Pool) × (mark_conn_active_ok (marked s) ≡ some (record (marked s) { pool = q }))
        × (member q s.self ≡ true)
  unfolding mark_conn_active_ok set_active
  revives s h =
      let pool = record s.pool { is_conn_active = update s.pool.is_conn_active s.self true } in
      let (q, done, u) =
        state_changed-Updated s.self pool
          (record { listed = h.agrees.listed; placed = h.agrees.placed }) in
      (q, ground (arith, done), ground (arith, u.members s.self))

  refused : (r : ℕ) (s : Conn W) → s.input_closed ≡ true → push_back r s ≡ none
  unfolding push_back enqueue
  refused r s h = ground (arith, h)

module _ (k : Sink) (p : Protocol) where
  open k use {W}

  -- A connection that is not connected yet is marked offline while ensureConn opens its transport, and
  -- Open then succeeds: these two steps can be taken, and after them the connection stands in the
  -- service's list with a closed queue: PushBack of any request panics.
  pub connects_late :
      (s : System W) (now r : ℕ) (c : Transport W)
      → s.phase ≡ opening
      → Unconnected s.conn
      → (t u : System W) × Step k p s t
        × Step k p t u
        × (member u.conn.pool u.conn.self ≡ true)
        × (push_back r u.conn ≡ none)
  connects_late s now r c opens h =
      let (q, ok, listed) = revives s.conn h in
      let t = record s { conn = marked s.conn } in
      let v = record (marked s.conn) { pool = q; transport = c; hb_last_time = now } in
      (
        t,
        record { conn = v; phase = looping selecting; beat = ticking; readers = suc s.readers },
        offline (marks s.conn h),
        connect now c opens ok,
        listed,
        refused r v refl,
      )
