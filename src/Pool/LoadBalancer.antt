-- ===== src/Pool/LoadBalancer.antt =====
-- BackServiceLB of proxy/backend_service_lb.go: a connection enters the list when a worker has
-- connected, and StateChanged only takes it out.
pub mod Removal
pub mod Stale
use rpc_proxy.Prelude.{ℕ, ◌-◌, Bool, Option, none, some, length, update, ◌==◌, if◌then◌else◌}
use rpc_proxy.Pool.{Pool, move_last, cut_last, append_conn}

-- The loop over `s.ch` in `run`, for one connection: conn.Index and the list, under the lock.
unfoldable pub accept_conn : ℕ → Pool → Pool
accept_conn c s = append_conn c s

-- The removal in BackServiceLB.StateChanged, for a conn.Index other than INVALID_ARRAY_INDEX. The
-- index of the connection is reset only where it is not the last one.
unfoldable pub remove_conn : ℕ → ℕ → Pool → Option Pool
remove_conn c i s =
    if length s.active_conns == 0
    then none
    else if length s.active_conns - 1 == i
    then some (cut_last s)
    else elim (move_last i s) [
      | none ↦ none
      | some t ↦ some (cut_last (record t { index = update t.index c none }))
    ]

-- BackServiceLB.StateChanged
unfoldable pub state_changed : Bool → ℕ → Pool → Option Pool
state_changed verbose c s =
    if s.is_conn_active c
    then if verbose then none else some s
    else elim (s.index c) [ none ↦ some s | some i ↦ remove_conn c i s ]
