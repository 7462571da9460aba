-- ===== src/Topology/Nodes.antt =====
-- Exist, CreateDir, DeleteDir, SetPathData and the data of the proxy in zk/topology.go. The package
-- encoding/json is an argument for these data, as `Info`.
mod Examples
use rpc_proxy.Prelude.{
  ℕ, ◌≡◌, ◌≢◌, refl, sym, ap, ◌∙◌, subst, Bool, true, false, Option, none, some, List, [], ◌∷◌,
  ◌++◌, Option-cases, inl, inr, if◌then◌else◌, arith,
}
use rpc_proxy.Topology.{
  ZkPath, ZkError, ZkConn, magic_prefix, product_base_path, outermost, create_recursive,
  create_or_update,
}
use rpc_proxy.Topology.Paths.{
  has_prefix, base_path, full_path, zk_path, IsName, full_path_twice, zk_path-child,
  zk_path-base_path,
}
use rpc_proxy.Topology.Creating.{
  Answers, create_recursive-Made, taken_recursive, create_or_update-there,
}
use rpc_proxy.Topology.Registering.{Deletes, is_some, Below}

-- "/rpc_proxy"
abbrev pub rpc_proxy_name : List ℕ
rpc_proxy_name = b'r' ∷ b'p' ∷ b'c' ∷ b'_' ∷ b'p' ∷ b'r' ∷ b'o' ∷ b'x' ∷ b'y' ∷ []

-- json.Marshal and json.Unmarshal for a map[string]interface{}; `none` is an error.
pub record Info (I : Type 0) : Type 0 where
  pub marshal : I → Option (List ℕ)
  pub unmarshal : List ℕ → Option I

module _ {W : Type 0} (k : ZkConn W) (product : List ℕ) where
  open k use {get, exists, set, delete_recursive}

  -- the node that FullPath(path) names
  abbrev pub node : List ℕ → ZkPath
  node path = zk_path (full_path (base_path product) path)

  -- Exist, without its error
  unfoldable pub exist : List ℕ → W → Bool
  exist path w = exists (node path) w

  -- DeleteDir: Exist gets the full path.
  unfoldable pub delete_dir : List ℕ → W → W
  delete_dir path w =
      let dir = full_path (base_path product) path in
      if exist dir w then (delete_recursive (zk_path dir) w).0 else w

  -- CreateDir
  unfoldable pub create_dir : List ℕ → W → W × Option ZkError
  create_dir path w =
      let dir = full_path (base_path product) path in
      if exist dir w then (w, none) else create_recursive k (zk_path dir) [] 0 w

  -- SetPathData
  unfoldable pub set_path_data : List ℕ → List ℕ → W → W
  set_path_data path value w = (set (node path) value w).0

  module _ {I : Type 0} (j : Info I) where
    open j use {marshal, unmarshal}

    -- SetRpcProxyData; the second component is its error, `none` inside for JSON's.
    unfoldable pub set_rpc_proxy_data : I → W → W × Option (Option ZkError)
    set_rpc_proxy_data info w = elim (marshal info) [
      | none ↦ (w, some none)
      | some value ↦
          let (u, e) = create_or_update k (node (b'/' ∷ rpc_proxy_name)) value 0 true w in
          (u, elim e [ none ↦ none | some x ↦ some (some x) ])
    ]

    -- GetRpcProxyData; `none` is an error.
    unfoldable pub get_rpc_proxy_data : W → Option I
    get_rpc_proxy_data w = elim (get (node (b'/' ∷ rpc_proxy_name)) w) [
      | none ↦ none
      | some value ↦ unmarshal value
    ]

  node_twice : (path : List ℕ) → node (full_path (base_path product) path) ≡ node path
  node_twice path = ap zk_path (full_path_twice (base_path product) path)

  module _ (path n : List ℕ) (p : ZkPath) (z : Deletes k) (e : node path ≡ n ∷ p) where
    found : (w : W) → exist path w ≡ is_some (get (n ∷ p) w)
    unfolding exist
    found w = ap (λ q. exists q w) e ∙ z.found (n ∷ p) w

    found_again : (w : W) → exist (full_path (base_path product) path) w ≡ is_some (get (n ∷ p) w)
    unfolding exist
    found_again w = ap (λ q. exists q w) (node_twice path ∙ e) ∙ z.found (n ∷ p) w

    created :
        (w : W)
        → Answers k
        → outermost (n ∷ p) ≡ magic_prefix
        → (w' : W) × (create_dir path w ≡ (w', none)) × (exist path w' ≡ true)
    unfolding create_dir
    created w a zk = elim (Option-cases (get (n ∷ p) w)) [
      | inl absent ↦
          let (w', go, m) = create_recursive-Made k n p [] 0 w a zk absent in
          (
            w',
            ground (arith, found_again w, absent, ap (λ q. create_recursive k q [] 0 w) e ∙ go),
            found w' ∙ ap is_some (m.there),
          )
      | inr (d, here) ↦ (w, ground (arith, found_again w, here), found w ∙ ap is_some here)
    ]

    gone :
        (v : W)
        → (exist path (delete_dir path v) ≡ false)
          × ((q : ZkPath) → ¬ (Below (n ∷ p) q) → get q (delete_dir path v) ≡ get q v)
    unfolding delete_dir
    gone v = elim (Option-cases (get (n ∷ p) v)) [
      | inl absent ↦
          let same : v ≡ delete_dir path v = ground (arith, found_again v, absent) in
          subst
            (λ x. (exist path x ≡ false) × ((q : ZkPath) → ¬ (Below (n ∷ p) q) → get q x ≡ get q v))
            same (found v ∙ ap is_some absent, λ q out. refl)
      | inr (d, here) ↦
          let (v', go, away, only) = z.delete_below n p d v here in
          let same : v' ≡ delete_dir path v =
            ground (arith, found_again v, here, ap (λ q. delete_recursive q v) e ∙ go) in
          subst
            (λ x. (exist path x ≡ false) × ((q : ZkPath) → ¬ (Below (n ∷ p) q) → get q x ≡ get q v))
            same (found v' ∙ ap is_some away, only)
    ]

  -- CreateDir and DeleteDir on a ZooKeeper that answers, at a path that FullPath places under "/zk":
  -- after CreateDir, which has no error, Exist finds the path, whether or not it was there; after DeleteDir
  -- it does not, and every node that is not at the path or below it is as it was.
  pub create_dir-exist :
      (path n : List ℕ) (p : ZkPath) (w v : W)
      → Answers k
      → Deletes k
      → node path ≡ n ∷ p
      → outermost (n ∷ p) ≡ magic_prefix
      → ((w' : W) × (create_dir path w ≡ (w', none)) × (exist path w' ≡ true))
        × (exist path (delete_dir path v) ≡ false)
        × ((q : ZkPath) → ¬ (Below (n ∷ p) q) → get q (delete_dir path v) ≡ get q v)
  create_dir-exist path n p w v a z e zk =
      let (out, only) = gone path n p z e v in (created path n p z e w a zk, out, only)

  -- What SetRpcProxyData has written, GetRpcProxyData reads, on a ZooKeeper that answers, where JSON reads
  -- what it has written and the product's name has no slash: there is no error, whether or not the node
  -- and those above it were there, and every other node that was there is as it was.
  pub get_rpc_proxy_data-set_rpc_proxy_data :
      {I : Type 0} (j : Info I) (info : I) (value : List ℕ) (w : W)
      → Answers k
      → IsName product
      → j.marshal info ≡ some value
      → j.unmarshal value ≡ some info
      → (w' : W) × (set_rpc_proxy_data j info w ≡ (w', none))
        × (get_rpc_proxy_data j w' ≡ some info)
        × ((q : ZkPath) (d : List ℕ)
            → q ≢ (rpc_proxy_name ∷ product_base_path product)
            → get q w ≡ some d
            → get q w' ≡ some d)
  unfolding set_rpc_proxy_data get_rpc_proxy_data has_prefix
  get_rpc_proxy_data-set_rpc_proxy_data j info value w a named writes reads =
      let place : node (b'/' ∷ rpc_proxy_name) ≡ rpc_proxy_name ∷ product_base_path product =
        zk_path-child (base_path product) rpc_proxy_name (omega arith)
        ∙ ap (◌∷◌ rpc_proxy_name) (zk_path-base_path product named) in
      let (w', go, there, only) =
        create_or_update-there k rpc_proxy_name (product_base_path product) value 0 w a refl in
      (
        w',
        ground (arith, writes, ap (λ q. create_or_update k q value 0 true w) place ∙ go),
        ground (arith, ap (λ q. get q w') place ∙ there, reads),
        only,
      )
