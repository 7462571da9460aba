-- ===== src/Topology/Watches/Examples.antt =====
-- The server "8" of the product "test", whose session expires between two failed watches.
use rpc_proxy.Prelude.{
  ℕ, ◌≡◌, refl, true, false, none, some, List, [], ◌∷◌, ◌++◌, bytes_eq, if◌then◌else◌,
}
use rpc_proxy.Topology.{
  ServiceEndpoint, Json, magic_prefix, get_service_endpoint, delete_service_endpoint,
}
use rpc_proxy.Topology.Tree.{Tree, tree}
use rpc_proxy.Topology.Laws.{tree-Answers, tree-Deletes}
use rpc_proxy.Topology.Watches.{Event, Round, register_loop, register_loop-registered}

abbrev sprout : Tree
sprout [] = some []
sprout (n ∷ []) = if bytes_eq n magic_prefix then some [] else none
sprout (n ∷ m ∷ p) = none

abbrev served : ServiceEndpoint
served = record {
  service = b'c' ∷ [];
  service_id = b'8' ∷ [];
  frontend = b'1' ∷ b':' ∷ b'8' ∷ [];
  deploy_path = [];
  code_url_verion = [];
  hostname = b'h' ∷ [];
  start_time = [];
}

-- It writes and reads the one endpoint.
abbrev json : Json
json = record { marshal = λ s. some (s.service_id); unmarshal = λ d. some served }

abbrev failed : Round Tree
failed = record { change = λ w. w; answer = none }

abbrev lost : Event
lost = record { expired = true; not_watching = false }

-- The tree loses all its nodes but "/" and "/zk".
abbrev expiry : Round Tree
expiry = record { change = λ _. sprout; answer = some ([], lost) }

abbrev product : List ℕ
product = b't' ∷ []

register_loop-registered_example :
    let end =
      register_loop tree json product served ((failed ∷ []) ++ expiry ∷ failed ∷ []) sprout in
    (get_service_endpoint tree json product served.service served.service_id end ≡ some served)
    × (get_service_endpoint tree json product served.service served.service_id
          (delete_service_endpoint tree json product served end)
        ≡ none)
register_loop-registered_example =
    register_loop-registered tree json product served (b'8' ∷ []) tree-Answers tree-Deletes refl
      refl (failed ∷ []) (failed ∷ []) expiry [] lost sprout refl refl (λ w h. h, tt)
