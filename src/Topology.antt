-- ===== src/Topology.antt =====
-- zk/topology.go and proxy/endpoint.go: the tree of services in ZooKeeper. A path is the list of its
-- names, the innermost first, so that os_path.Dir drops the first one; product, service and endpoint
-- names hold no slash. The zk client and the JSON package are arguments. Access lists are passed on
-- only, and the paths that the creating functions answer are only logged: both are left out.
pub mod Creating
pub mod Registering
pub mod Paths
pub mod Watches
pub mod Nodes
mod Tree
mod Laws
mod Examples
use rpc_proxy.Prelude.{
  ℕ, Bool, true, false, Option, none, some, List, [], ◌∷◌, if◌then◌else◌, bytes_eq,
}

abbrev pub ZkPath : Type 0
ZkPath = List (List ℕ)

-- The errors that the code tells apart, and the others.
pub data ZkError : Type 0 where
  no_node node_exists : ZkError
  -- "zkutil: non /zk path"
  bad_path : ZkError
  zk_other : ℕ → ZkError

-- zkhelper.Conn, and the functions of zkhelper: `get` answers a node's data, `exists` is NodeExists
-- without its error.
pub record ZkConn (W : Type 0) : Type 0 where
  pub get : ZkPath → W → Option (List ℕ)
  pub exists : ZkPath → W → Bool
  pub create : ZkPath → List ℕ → ℕ → W → W × Option ZkError
  pub set : ZkPath → List ℕ → W → W × Option ZkError
  pub delete : ZkPath → W → W × Option ZkError
  pub delete_recursive : ZkPath → W → W × Option ZkError
  pub flag_ephemeral : ℕ

abbrev pub magic_prefix : List ℕ
magic_prefix = b'z' ∷ b'k' ∷ []

abbrev pub product_name : List ℕ
product_name = b'p' ∷ b'r' ∷ b'o' ∷ b'd' ∷ b'u' ∷ b'c' ∷ b't' ∷ []

abbrev pub services_name : List ℕ
services_name = b's' ∷ b'e' ∷ b'r' ∷ b'v' ∷ b'i' ∷ b'c' ∷ b'e' ∷ b's' ∷ []

-- productBasePath
abbrev pub product_base_path : List ℕ → ZkPath
product_base_path product = product ∷ product_name ∷ magic_prefix ∷ []

-- ProductServicesPath
abbrev pub product_services_path : List ℕ → ZkPath
product_services_path product = services_name ∷ product_base_path product

-- ProductServicePath
abbrev pub product_service_path : List ℕ → List ℕ → ZkPath
product_service_path product service = service ∷ product_services_path product

-- ProductServiceEndPointPath
abbrev pub product_service_end_point_path : List ℕ → List ℕ → List ℕ → ZkPath
product_service_end_point_path product service endpoint =
    endpoint ∷ product_service_path product service

-- strings.Split(zkPath, "/")[1]
abbrev pub outermost : ZkPath → List ℕ
outermost [] = []
outermost (n ∷ []) = n
outermost (n ∷ m ∷ p) = outermost (m ∷ p)

module _ {W : Type 0} (k : ZkConn W) where
  open k use {get, exists, create, set, delete, delete_recursive, flag_ephemeral}

  -- The end of CreateRecursive, once the parent's creation has answered.
  abbrev pub parent_created : ZkPath → List ℕ → ℕ → W × Option ZkError → W × Option ZkError
  parent_created path value flags (w, none) = create path value flags w
  parent_created path value flags (w, some node_exists) = create path value flags w
  parent_created path value flags (w, some no_node) = (w, some no_node)
  parent_created path value flags (w, some bad_path) = (w, some bad_path)
  parent_created path value flags (w, some (zk_other n)) = (w, some (zk_other n))

  -- CreateRecursive after its first Create; the argument is the parent's creation.
  abbrev pub tried :
      ZkPath → List ℕ → ℕ → (W → W × Option ZkError) → W × Option ZkError → W × Option ZkError
  tried path value flags up (w, none) = (w, none)
  tried path value flags up (w, some no_node) = parent_created path value flags (up w)
  tried path value flags up (w, some node_exists) = (w, some node_exists)
  tried path value flags up (w, some bad_path) = (w, some bad_path)
  tried path value flags up (w, some (zk_other n)) = (w, some (zk_other n))

  -- CreateRecursive; the parent of "/" is "/", whose outermost name is empty.
  unfoldable pub create_recursive : ZkPath → List ℕ → ℕ → W → W × Option ZkError
  create_recursive [] value flags w = (w, some bad_path)
  create_recursive (n ∷ p) value flags w =
      let up = create_recursive p [] 0 in
      if bytes_eq (outermost (n ∷ p)) magic_prefix
      then tried (n ∷ p) value flags up (create (n ∷ p) value flags w)
      else (w, some bad_path)

  -- CreateOrUpdate
  abbrev pub updated : ZkPath → List ℕ → W × Option ZkError → W × Option ZkError
  updated path value (w, none) = (w, none)
  updated path value (w, some node_exists) = set path value w
  updated path value (w, some no_node) = (w, some no_node)
  updated path value (w, some bad_path) = (w, some bad_path)
  updated path value (w, some (zk_other n)) = (w, some (zk_other n))

  unfoldable pub create_or_update : ZkPath → List ℕ → ℕ → Bool → W → W × Option ZkError
  create_or_update path value flags recursive w =
      updated path value
        (if recursive then create_recursive path value flags w else create path value flags w)

pub record ServiceEndpoint : Type 0 where
  pub service : List ℕ
  pub service_id : List ℕ
  pub frontend : List ℕ
  pub deploy_path : List ℕ
  pub code_url_verion : List ℕ
  pub hostname : List ℕ
  pub start_time : List ℕ

-- NewServiceEndpoint; the host's name, `none` where the system does not tell it, and the time in the
-- form that is written are arguments.
unfoldable pub new_service_endpoint :
    List ℕ → List ℕ → List ℕ → List ℕ → List ℕ → Option (List ℕ) → List ℕ → ServiceEndpoint
new_service_endpoint service service_id frontend deploy_path code_url_verion host start_time =
    record {
      service = service;
      service_id = service_id;
      frontend = frontend;
      deploy_path = deploy_path;
      code_url_verion = code_url_verion;
      hostname = elim host [
        | none ↦ b'U' ∷ b'n' ∷ b'k' ∷ b'n' ∷ b'o' ∷ b'w' ∷ b'n' ∷ []
        | some name ↦ name
      ];
      start_time = start_time;
    }

-- encoding/json
pub record Json : Type 0 where
  pub marshal : ServiceEndpoint → Option (List ℕ)
  pub unmarshal : List ℕ → Option ServiceEndpoint

-- What a watch of RegisterService answers: that it failed, or an event.
pub data Watched : Type 0 where
  not_watched : Watched
  event : Bool → Watched

module _ {W : Type 0} (k : ZkConn W) (j : Json) (product : List ℕ) where
  open k use {get, exists, create, delete, delete_recursive, flag_ephemeral}
  open j use {marshal, unmarshal}

  abbrev pub path_of : ServiceEndpoint → ZkPath
  path_of s = product_service_end_point_path product s.service s.service_id

  -- DeleteServiceEndpoint
  unfoldable pub delete_service_endpoint : ServiceEndpoint → W → W
  delete_service_endpoint s w =
      if exists (path_of s) w then (delete_recursive (path_of s) w).0 else w

  -- AddServiceEndpoint; the second component is its error, `none` inside for JSON's.
  unfoldable pub add_service_endpoint : ServiceEndpoint → W → W × Option (Option ZkError)
  add_service_endpoint s w = elim (marshal s) [
    | none ↦ (w, some none)
    | some value ↦
        let made = (create_recursive k (product_service_path product s.service) [] 0 w).0 in
        let removed = (delete (path_of s) made).0 in
        let (u, e) = create (path_of s) value flag_ephemeral removed in
        (u, elim e [ none ↦ none | some x ↦ some (some x) ])
  ]

  -- GetServiceEndpoint; `none` is an error.
  unfoldable pub get_service_endpoint : List ℕ → List ℕ → W → Option ServiceEndpoint
  get_service_endpoint service service_id w =
      elim (get (product_service_end_point_path product service service_id) w) [
        | none ↦ none
        | some value ↦ unmarshal value
      ]

  -- RegisterService before its loop, and again when the session has expired
  abbrev pub renew : ServiceEndpoint → W → W
  renew s w = (add_service_endpoint s (delete_service_endpoint s w)).0

  -- A round of RegisterService's loop: an event tells whether the session has expired.
  abbrev pub register_round : ServiceEndpoint → Watched → W → W
  register_round s not_watched w = w
  register_round s (event false) w = w
  register_round s (event true) w = renew s w
