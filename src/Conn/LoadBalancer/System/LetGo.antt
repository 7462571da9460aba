-- ===== src/Conn/LoadBalancer/System/LetGo.antt =====
-- What somebody finds whose wait for a request is over.
use rpc_proxy.Prelude.{ℕ, suc, ◌≡◌, ◌≢◌, none, some, arith, Option-cases, inl, inr, ◌⊎◌}
use rpc_proxy.Thrift.{Protocol}
use rpc_proxy.Framing.Output.{Sink}
use rpc_proxy.Request.{Request}
use rpc_proxy.Conn.Accounts.{places}
use rpc_proxy.Conn.LoadBalancer.System.{
  System, hand, Step, push, tick_ping, tick_end, tick_late, tick_time_out, receive, closed, skip,
  send, enter, finish, read, break, Reach, here, next,
}
use rpc_proxy.Conn.LoadBalancer.System.Reached.{Inv, Reach-Inv}
use rpc_proxy.Conn.LoadBalancer.System.Results.{
  Tells, Tells-trans, Untold, push_back-Tells, push_ping-Tells, set_response-Tells,
  flush_requests-Tells, run_end-Tells, send_frame-Tells, after_flush-Tells,
}

-- The request has an answer's bytes, or an error.
abbrev pub HasResult : Request → Type 0
HasResult q = (q.response_data ≢ none) ⊎ (q.response_err ≢ none)

told-HasResult : (q : Request) → q.wait ≡ some 0 → ¬ Untold q → HasResult q
told-HasResult q w told = elim (Option-cases q.response_data) [
  | inr (bytes, d) ↦ inl λ nothing. ground (arith, d, nothing)
  | inl d ↦ inr λ n. told (w, d, n)
]

module _ (k : Sink) (p : Protocol) where
  open k use {W}

  step-Tells : (s t : System W) → Step k p s t → Tells s.conn t.conn
  step-Tells s t (push {t = u} r other room opened h) = push_back-Tells r s.conn u h
  step-Tells s t (tick_ping {t = u} now fresh beats beat free room opened h) =
      push_ping-Tells p now fresh s.conn u h
  step-Tells s t (tick_end now beats stops) = λ x w. w
  step-Tells s t (tick_late now beats late) = λ x w. w
  step-Tells s t (tick_time_out sends at_select) = λ x w. w
  step-Tells s t (receive r rest at_select front) = λ x w. w
  step-Tells s t (closed at_select empty shut) = λ x w. w
  step-Tells s t (skip unix r has old) = λ x w. w
  step-Tells s t (send {t = u} {u = v} {e = e} {w = w} unix now later r has keep go h) =
      Tells-trans s.conn u v (send_frame-Tells k p now later r s.conn u e go)
        (after_flush-Tells k p r u v e w h)
  step-Tells s t (enter r has free) = λ x w. w
  step-Tells s t (finish {t = u} e beats left_so h) = run_end-Tells e s.conn u h
  step-Tells s t (read {t = u} {e = e} now bytes runs honest h) =
      set_response-Tells p now bytes s.conn u e h
  step-Tells s t (break {t = u} e runs h) = flush_requests-Tells e s.conn u h

  reach-Tells : (s t : System W) → Reach k p s t → Tells s.conn t.conn
  reach-Tells s t here = λ x w. w
  reach-Tells s t (next {t = m} before step) =
      Tells-trans s.conn m.conn t.conn (reach-Tells s m before) (step-Tells m t step)

  -- The interleaved goroutines of a connection, from a state where each WaitGroup counts the places of
  -- its request and nobody waits for a heartbeat: in whatever state they reach, under the premises
  -- that the steps have, a request that
  -- somebody waited for and whose WaitGroup is at zero has an answer's bytes or an error in it, and
  -- is neither with loopWriter nor in the queue nor in the table.
  pub let_go_with_result :
      (s t : System W) (r n : ℕ)
      → Inv s
      → (s.conn.requests r).wait ≡ some (suc n)
      → Reach k p s t
      → (t.conn.requests r).wait ≡ some 0
      → HasResult (t.conn.requests r) × (places (hand t.writer) t.conn r ≡ 0)
  let_go_with_result s t r n i waited steps w =
      let j = Reach-Inv k p s t i steps in
      (
        told-HasResult (t.conn.requests r) w
            λ u. ground (arith, waited, (reach-Tells s t steps r u).0),
        ground (arith, j.accounts.waits r 0 w),
      )
