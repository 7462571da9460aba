-- ===== src/Pool.antt =====
-- The connections that a service's requests go to: `activeConns` and `currentConnIndex` of
-- proxy/backend_service_lb.go (BackServiceLB) and proxy/backend_service_proxy.go (BackService).
-- A connection is a number, the pointer to it; `index` and `is_conn_active` hold its fields Index
-- (INVALID_ARRAY_INDEX is `none`) and IsConnActive. Each operation runs under `activeConnsLock`.
-- A result `none` is a panic of Go: an index out of range, or the one that the code calls.
pub mod Invariant
pub mod Removal
pub mod RoundRobin
pub mod LoadBalancer
pub mod Dispatching
pub mod Idle
pub mod Stopping
pub mod Notifying
mod Examples
use rpc_proxy.Prelude.{
  ℕ, suc, ◌+◌, ◌-◌, Bool, true, false, Option, none, some, List, [], ◌∷◌, ◌++◌, length, get_elem?,
  set, take, update, leb, ltb, ◌==◌, if◌then◌else◌,
}

pub record Pool : Type 0 where
  pub active_conns : List ℕ
  pub current_conn_index : ℕ
  pub index : ℕ → Option ℕ
  pub is_conn_active : ℕ → Bool

-- NewBackService, NewBackServiceLB
unfoldable pub empty : (ℕ → Option ℕ) → (ℕ → Bool) → Pool
empty index is_conn_active = record {
  active_conns = [];
  current_conn_index = 0;
  index = index;
  is_conn_active = is_conn_active;
}

-- Active
abbrev pub active : Pool → ℕ
active s = length s.active_conns

-- `currentConnIndex`, set back where it is past the end.
abbrev pub wrapped : Pool → ℕ
wrapped s = if leb (length s.active_conns) s.current_conn_index then 0 else s.current_conn_index

-- NextBackendConn, nextBackendConn: the outer `none` is a panic, the inner one Go's nil.
unfoldable pub next_backend_conn : Pool → Option (Option ℕ × Pool)
next_backend_conn s =
    if length s.active_conns == 0
    then some (none, s)
    else elim (get_elem? s.active_conns (wrapped s)) [
      | none ↦ none
      | some c ↦ some (some c, record s { current_conn_index = wrapped s + 1 })
    ]

-- conn.Index = len(s.activeConns); s.activeConns = append(s.activeConns, conn)
abbrev pub append_conn : ℕ → Pool → Pool
append_conn c s = record s {
  index = update s.index c (some (length s.active_conns));
  active_conns = s.active_conns ++ c ∷ [];
}

-- s.activeConns = s.activeConns[0:lastIndex], once the elements before are in place
abbrev pub cut_last : Pool → Pool
cut_last s = record s { active_conns = take (length s.active_conns - 1) s.active_conns }

-- s.activeConns[i] = s.activeConns[len-1], and the moved connection learns its place; for i < len.
abbrev pub move_last : ℕ → Pool → Option Pool
move_last i s = elim (get_elem? s.active_conns (length s.active_conns - 1)) [
  | none ↦ none
  | some last_conn ↦
      if ltb i (length s.active_conns)
      then some (record s {
        active_conns = set s.active_conns i last_conn;
        index = update s.index last_conn (some i);
      })
      else none
]

-- The removal in BackService.StateChanged, for a conn.Index other than INVALID_ARRAY_INDEX. In an
-- empty slice `lastIndex` is -1, and reading there panics.
unfoldable pub remove_conn : ℕ → ℕ → Pool → Option Pool
remove_conn c i s =
    if length s.active_conns == 0
    then none
    else elim (if length s.active_conns - 1 == i then some s else move_last i s) [
      | none ↦ none
      | some t ↦ some (cut_last (record t { index = update t.index c none }))
    ]

-- BackService.StateChanged
unfoldable pub state_changed : ℕ → Pool → Option Pool
state_changed c s =
    if s.is_conn_active c
    then elim (s.index c) [ none ↦ some (append_conn c s) | some i ↦ some s ]
    else elim (s.index c) [ none ↦ some s | some i ↦ remove_conn c i s ]
