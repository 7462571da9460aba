-- ===== src/Topology/Nodes/Examples.antt =====
-- The product "test" on a tree with "/zk" and nothing below it.
use rpc_proxy.Prelude.{
  ℕ, ◌≡◌, ◌≢◌, refl, true, false, none, some, List, [], ◌∷◌, arith, bytes_eq, if◌then◌else◌,
}
use rpc_proxy.Topology.{
  ZkPath, magic_prefix, services_name, product_base_path, product_services_path,
}
use rpc_proxy.Topology.Registering.{Below}
use rpc_proxy.Topology.Tree.{Tree, tree, get}
use rpc_proxy.Topology.Laws.{tree-Answers, tree-Deletes}
use rpc_proxy.Topology.Paths.{has_prefix, split_slash}
use rpc_proxy.Topology.Nodes.{
  Info, node, rpc_proxy_name, exist, create_dir, delete_dir, set_rpc_proxy_data, get_rpc_proxy_data,
  create_dir-exist, get_rpc_proxy_data-set_rpc_proxy_data,
}

abbrev sprout : Tree
sprout [] = some []
sprout (n ∷ []) = if bytes_eq n magic_prefix then some [] else none
sprout (n ∷ m ∷ p) = none

abbrev product : List ℕ
product = b't' ∷ b'e' ∷ b's' ∷ b't' ∷ []

abbrev services : List ℕ
services = b'/' ∷ services_name

services_node : node tree product services ≡ product_services_path product
unfolding has_prefix split_slash
services_node = refl

create_dir-exist_test :
    ((w' : Tree) × (create_dir tree product services sprout ≡ (w', none))
      × (exist tree product services w' ≡ true))
    × (exist tree product services (delete_dir tree product services sprout) ≡ false)
    × ((q : ZkPath)
        → ¬ (Below (product_services_path product) q)
        → get q (delete_dir tree product services sprout) ≡ get q sprout)
create_dir-exist_test =
    create_dir-exist tree product services services_name (product_base_path product) sprout sprout
      tree-Answers tree-Deletes services_node refl

-- A proxy's data are one number.
abbrev numbers : Info ℕ
numbers = record {
  marshal = λ n. some (n ∷ []);
  unmarshal = λ d. elim d [ [] ↦ none | n ∷ ns ↦ some n ];
}

get_rpc_proxy_data-set_rpc_proxy_data_example :
    (w' : Tree) × (set_rpc_proxy_data tree product numbers 5 sprout ≡ (w', none))
    × (get_rpc_proxy_data tree product numbers w' ≡ some 5)
    × ((q : ZkPath) (d : List ℕ)
        → q ≢ (rpc_proxy_name ∷ product_base_path product)
        → get q sprout ≡ some d
        → get q w' ≡ some d)
get_rpc_proxy_data-set_rpc_proxy_data_example =
    get_rpc_proxy_data-set_rpc_proxy_data tree product numbers 5 (5 ∷ []) sprout tree-Answers
      (omega arith) refl refl
