-- ===== src/Pool/LoadBalancer/Stale.antt =====
-- A connection that was last in the list keeps its index when it is taken out, so a second
-- notification about it acts on whatever stands at that index. MarkConnActiveFalse tests
-- IsConnActive and clears it in two steps, and both loopReader and Run call it, so two notifications
-- can follow one another.
use rpc_proxy.Prelude.{
  ℕ, ◌-◌, ◌<◌, ◌≡◌, Bool, true, false, none, some, ◌∷◌, [], ◌++◌, length, arith, ◌==◌, length-take,
  length-append, take_exact,
}
use rpc_proxy.Pool.{Pool, cut_last}
use rpc_proxy.Pool.LoadBalancer.{accept_conn, remove_conn, state_changed}

-- The connection is the last of the list, and has been marked inactive.
abbrev pub IsLastAndFailed : ℕ → Pool → Type 0
IsLastAndFailed c s =
    (0 < length s.active_conns)
    × (s.index c ≡ some (length s.active_conns - 1))
    × (s.is_conn_active c ≡ false)

first_notification :
    (verbose : Bool) (c : ℕ) (s : Pool)
    → IsLastAndFailed c s
    → state_changed verbose c s ≡ some (cut_last s)
unfolding state_changed remove_conn
first_notification verbose c s h = ground arith

second_panics :
    (verbose : Bool) (c : ℕ) (s : Pool)
    → IsLastAndFailed c s
    → state_changed verbose c (cut_last s) ≡ none
unfolding state_changed remove_conn
second_panics verbose c s h = ground (arith, length-take (length s.active_conns - 1) s.active_conns)

-- The load balancer panics when it is notified twice of the failure of the last connection.
pub notified_twice_panics :
    (verbose : Bool) (c : ℕ) (s : Pool)
    → IsLastAndFailed c s
    → (t : Pool) × (state_changed verbose c s ≡ some t) × (state_changed verbose c t ≡ none)
notified_twice_panics verbose c s h =
    (cut_last s, first_notification verbose c s h, second_panics verbose c s h)

second_evicts :
    (verbose : Bool) (c d : ℕ) (s : Pool)
    → IsLastAndFailed c s
    → (c == d) ≡ false
    → state_changed verbose c (accept_conn d (cut_last s))
      ≡ some (cut_last (accept_conn d (cut_last s)))
unfolding state_changed remove_conn accept_conn
second_evicts verbose c d s h ne = ground (
  arith,
  length-take (length s.active_conns - 1) s.active_conns,
  length-append {0} (cut_last s).active_conns (d ∷ []),
)

-- A connection that is the last of the list, has its place as its index and has been marked inactive,
-- and of whose failure the list is notified twice, where another connection, marked active, is added
-- between the two notifications: the second notification takes that other connection out of the
-- list, so that the list is as after the first, while the other connection stays marked active.
pub notified_late_evicts :
    (verbose : Bool) (c d : ℕ) (s : Pool)
    → IsLastAndFailed c s
    → (c == d) ≡ false
    → s.is_conn_active d ≡ true
    → (t u : Pool) × (state_changed verbose c s ≡ some t)
      × (state_changed verbose c (accept_conn d t) ≡ some u)
      × (u.active_conns ≡ t.active_conns)
      × (u.is_conn_active d ≡ true)
unfolding accept_conn
notified_late_evicts verbose c d s h ne on =
    let left = (cut_last s).active_conns in
    (
      cut_last s,
      cut_last (accept_conn d (cut_last s)),
      first_notification verbose c s h,
      second_evicts verbose c d s h ne,
      take_exact left (d ∷ []) (length (left ++ d ∷ []) - 1)
          (omega (arith, length-append left (d ∷ []))),
      on,
    )
