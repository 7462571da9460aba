-- ===== src/Endpoints.antt =====
-- proxy/backend_service_proxy.go, WatchBackServiceNodes: the connections that a service of the proxy
-- keeps to the addresses in ZooKeeper. A connection is a number: `fresh` is what NewBackendConn makes
-- next, and `is_mark_offline` says of each whether it is marked. What an endpoint's node holds is an
-- argument: its address, or `none` where it cannot be read. Both loops over maps run in the maps'
-- order here; Go's order is any.
pub mod Watching
mod Examples
use rpc_proxy.Prelude.{
  ℕ, zero, suc, ◌+◌, ◌==◌, Bool, true, false, ◌||◌, Option, none, some, List, [], ◌∷◌, bytes_eq,
  if◌then◌else◌, find, remove, put, update,
}

pub record Endpoints : Type 0 where
  pub addr_to_conn : List (List ℕ × ℕ)
  pub is_mark_offline : ℕ → Bool
  pub fresh : ℕ

-- strings.Contains(addr, ":")
abbrev pub has_colon : List ℕ → Bool
has_colon [] = false
has_colon (c ∷ cs) = c == b':' || has_colon cs

-- `productName == TEST_PRODUCT_NAME`: addresses without a port count in tests only.
abbrev pub usable : Bool → List ℕ → Bool
usable is_test addr = has_colon addr || is_test

-- The first loop: the set addressMap, as a map to Unit values.
unfoldable pub collect : Bool → List (Option (List ℕ)) → List (List ℕ × Bool)
collect is_test [] = []
collect is_test (none ∷ endpoints) = collect is_test endpoints
collect is_test (some addr ∷ endpoints) =
    let rest = collect is_test endpoints in if usable is_test addr then put addr true rest else rest

-- A round of `for addr, _ := range addressMap`
unfoldable pub ensure_conn : List ℕ → Endpoints → Endpoints
ensure_conn addr s = elim (find addr s.addr_to_conn) [
  | none ↦ fresh_conn addr s
  | some c ↦ if s.is_mark_offline c then fresh_conn addr s else s
]
  where
    fresh_conn : List ℕ → Endpoints → Endpoints
    fresh_conn addr s = record s {
      addr_to_conn = put addr s.fresh s.addr_to_conn;
      is_mark_offline = update s.is_mark_offline s.fresh false;
      fresh = s.fresh + 1;
    }

unfoldable pub ensure_each : List (List ℕ × Bool) → Endpoints → Endpoints
ensure_each [] s = s
ensure_each ((addr, _) ∷ m) s = ensure_each m (ensure_conn addr s)

-- A round of `for addr, conn := range s.addr2Conn`
unfoldable pub retire : List (List ℕ × Bool) → List ℕ → ℕ → Endpoints → Endpoints
retire addresses addr c s = elim (find addr addresses) [
  | some _ ↦ s
  | none ↦ record s {
    addr_to_conn = remove addr s.addr_to_conn;
    is_mark_offline = update s.is_mark_offline c true;
  }
]

unfoldable pub retire_each : List (List ℕ × Bool) → List (List ℕ × ℕ) → Endpoints → Endpoints
retire_each addresses [] s = s
retire_each addresses ((addr, c) ∷ m) s = retire_each addresses m (retire addresses addr c s)

-- What WatchBackServiceNodes does with the endpoints that it read.
unfoldable pub watch_round : Bool → List (Option (List ℕ)) → Endpoints → Endpoints
watch_round is_test endpoints s =
    let addresses = collect is_test endpoints in
    let t = ensure_each addresses s in retire_each addresses t.addr_to_conn t
