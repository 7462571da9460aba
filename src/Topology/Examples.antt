-- ===== src/Topology/Examples.antt =====
-- A tree with "/zk" and nothing below it, and a server of the product "test".
use rpc_proxy.Prelude.{ℕ, ◌≡◌, ◌≢◌, refl, true, none, some, List, [], ◌∷◌, bytes_eq, if◌then◌else◌}
use rpc_proxy.Topology.{
  ZkPath, ServiceEndpoint, Json, magic_prefix, product_base_path, create_recursive,
  create_or_update, get_service_endpoint, renew, path_of,
}
use rpc_proxy.Topology.Creating.{Made, create_recursive-Made, create_or_update-there}
use rpc_proxy.Topology.Registering.{Below, renew-registered}
use rpc_proxy.Topology.Tree.{Tree, tree, get}
use rpc_proxy.Topology.Laws.{tree-Answers, tree-Deletes}

abbrev sprout : Tree
sprout [] = some []
sprout (n ∷ []) = if bytes_eq n magic_prefix then some [] else none
sprout (n ∷ m ∷ p) = none

abbrev product : List ℕ
product = b't' ∷ b'e' ∷ b's' ∷ b't' ∷ []

create_recursive-Made_test :
    (w' : Tree) × (create_recursive tree (product_base_path product) (1 ∷ []) 0 sprout ≡ (w', none))
    × Made tree (product_base_path product) (1 ∷ []) sprout w'
create_recursive-Made_test =
    create_recursive-Made tree product _ (1 ∷ []) 0 sprout tree-Answers refl refl

create_or_update-there_test :
    (w' : Tree) × (create_or_update tree (magic_prefix ∷ []) (7 ∷ []) 0 true sprout ≡ (w', none))
    × (get (magic_prefix ∷ []) w' ≡ some (7 ∷ []))
    × ((q : ZkPath) (d : List ℕ)
        → q ≢ (magic_prefix ∷ [])
        → get q sprout ≡ some d
        → get q w' ≡ some d)
create_or_update-there_test =
    create_or_update-there tree magic_prefix [] (7 ∷ []) 0 sprout tree-Answers refl

abbrev served : ServiceEndpoint
served = record {
  service = b'c' ∷ b'h' ∷ b'a' ∷ b't' ∷ [];
  service_id = b'8' ∷ [];
  frontend = b'1' ∷ b':' ∷ b'8' ∷ [];
  deploy_path = [];
  code_url_verion = [];
  hostname = b'h' ∷ [];
  start_time = [];
}

-- It writes and reads the one endpoint.
abbrev json : Json
json = record { marshal = λ s. some (s.service_id); unmarshal = λ d. some served }

renew-registered_test :
    (get_service_endpoint tree json product served.service served.service_id
        (renew tree json product served sprout)
      ≡ some served)
    × ((q : ZkPath) (d : List ℕ)
        → ¬ (Below (path_of tree json product served) q)
        → get q sprout ≡ some d
        → get q (renew tree json product served sprout) ≡ some d)
renew-registered_test =
    renew-registered tree json product served (b'8' ∷ []) sprout tree-Answers tree-Deletes refl refl
