-- ===== src/Router.antt =====
-- proxy/router_proxy.go: the services that a proxy routes requests to, kept in step with the list
-- of names in ZooKeeper. A BackService is a number: `fresh` is what NewBackService makes next. The
-- watch that delivers the names and the lock are not modelled: a round of the watch loop and a
-- request run one at a time.
pub mod Watching
mod Examples
use rpc_proxy.Prelude.{
  ℕ, zero, suc, ◌+◌, Bool, true, false, Option, none, some, List, [], ◌∷◌, ◌++◌, bytes_eq,
  if◌then◌else◌, find, remove, put, map,
}
use rpc_proxy.Errors.{Error}
use rpc_proxy.Thrift.{Protocol}
use rpc_proxy.Request.{Request}
use rpc_proxy.Exceptions.{Exceptions, get_service_not_found_data}

-- map[string]*BackService
abbrev pub Services : Type 0
Services = List (List ℕ × ℕ)

pub record Router : Type 0 where
  pub services : Services
  -- the number of the next BackService
  pub fresh : ℕ
  -- what Stop has been called on, newest first
  pub stopped : List ℕ

-- GetBackService
unfoldable pub get_back_service : List ℕ → Router → Option ℕ
get_back_service name r = find name r.services

-- addBackService
unfoldable pub add_back_service : List ℕ → Router → Router
add_back_service name r = elim (find name r.services) [
  | some _ ↦ r
  | none ↦ record r { services = put name r.fresh r.services; fresh = r.fresh + 1 }
]

-- A round of `for _, service := range services`: the services that the map had before are at hand.
unfoldable pub watch_service : List ℕ → Services × Router → Services × Router
watch_service name (old, r) = elim (find name old) [
  | some back ↦ (remove name old, record r { services = put name back r.services })
  | none ↦ (old, add_back_service name r)
]

unfoldable pub watch_each : List (List ℕ) → Services × Router → Services × Router
watch_each [] s = s
watch_each (name ∷ names) s = watch_each names (watch_service name s)

-- conn.Stop() for what is left of the old services
abbrev pub stop_all : Services → Router → Router
stop_all [] r = r
stop_all ((_, b) ∷ m) r = stop_all m (record r { stopped = b ∷ r.stopped })

-- What WatchServices does with a list of names that it got.
unfoldable pub watch_round : List (List ℕ) → Router → Router
watch_round names r =
    let (old, q) = watch_each names (r.services, record r { services = [] }) in stop_all old q

module _ (p : Protocol) (x : Exceptions) {D : Type 0} where
  -- Dispatch: `handle` is HandleRequest of a BackService.
  unfoldable pub dispatch :
      (ℕ → Request → D → D × Request × Option Error)
      → Router
      → Request
      → D
      → D × Request × Option Error
  dispatch handle s r d = elim (get_back_service r.service s) [
    | none ↦
        let (q, bytes) = get_service_not_found_data p x r in
        (d, record q { response_data = some bytes }, none)
    | some b ↦ handle b r d
  ]
