-- ===== src/Config.antt =====
-- utils/config.go and proxy/utils_config_checker.go: the configuration of a server, read and checked before
-- it starts; and GetIpWithPrefix of utils/utils.go. The package cfg, the network interfaces and the
-- working directory are arguments. Strings are their bytes, ASCII in a configuration. `none` and a
-- check that answers false are log.Panic, which ends the program.
pub mod Checked
mod Examples
use rpc_proxy.Prelude.{
  ℕ, suc, ◌+◌, ◌-◌, Bool, true, false, ◌&&◌, ◌||◌, not, Option, none, some, List, [], ◌∷◌, ◌++◌,
  ◌==◌, leb, if◌then◌else◌,
}
use rpc_proxy.Topology.Paths.{has_prefix}

-- Go's int, as ReadInt answers it
pub data ℤ : Type 0 where
  pos negsuc : ℕ → ℤ

-- the names of the entries
pub data Entry : Type 0 where
  product_key zk_key zk_session_timeout_key verbose_key service_key front_host_key : Entry
  front_port_key front_sock_key ip_prefix_key back_address_key proxy_address_key profile_key : Entry

-- cfg.Cfg: an entry, and its default where the file has none
pub record Cfg : Type 0 where
  pub read_string : Entry → List ℕ → List ℕ
  pub read_int : Entry → ℤ → ℤ

-- The addresses of each network interface as strings, and path.Clean(path.Join(dir, name)) for the
-- working directory.
pub record Host : Type 0 where
  pub interfaces : List (List (List ℕ))
  pub absolute : List ℕ → List ℕ

pub record Config : Type 0 where
  pub product_name : List ℕ
  pub service : List ℕ
  pub zk_addr : List ℕ
  pub zk_session_timeout : ℕ
  pub front_host : List ℕ
  pub front_port : List ℕ
  pub front_sock : List ℕ
  pub frontend_addr : List ℕ
  pub ip_prefix : List ℕ
  pub back_addr : List ℕ
  pub proxy_addr : List ℕ
  pub profile : Bool
  pub verbose : Bool

-- s == ""
abbrev pub is_empty : List ℕ → Bool
is_empty [] = true
is_empty (c ∷ cs) = false

-- strings.TrimSpace, of ASCII
abbrev is_space : ℕ → Bool
is_space c = (c == 32) || (leb 9 c && leb c 13)

unfoldable pub trim_left : List ℕ → List ℕ
trim_left [] = []
trim_left (c ∷ cs) = let rest = trim_left cs in if is_space c then rest else c ∷ cs

unfoldable pub trim_right : List ℕ → List ℕ
trim_right [] = []
trim_right (c ∷ cs) =
    let rest = trim_right cs in if is_space c && is_empty rest then [] else c ∷ rest

abbrev pub trim_space : List ℕ → List ℕ
trim_space s = trim_right (trim_left s)

-- GetIpWithPrefix: the loop over the addresses of an interface, and the one over the interfaces
unfoldable pub first_with : List ℕ → List (List ℕ) → Option (List ℕ)
first_with prefix [] = none
first_with prefix (a ∷ rest) =
    let more = first_with prefix rest in if has_prefix prefix a then some a else more

unfoldable pub get_ip_with_prefix : List ℕ → List (List (List ℕ)) → List ℕ
get_ip_with_prefix prefix [] = []
get_ip_with_prefix prefix (i ∷ rest) = elim (first_with prefix i) [
  | none ↦ get_ip_with_prefix prefix rest
  | some a ↦ a
]

module _ (o : Host) where
  -- The host of getFrontendAddr
  abbrev pub host_of : List ℕ → List ℕ → List ℕ
  host_of front_host ip_prefix =
      if is_empty front_host && not (is_empty ip_prefix)
      then get_ip_with_prefix ip_prefix o.interfaces
      else front_host

  -- getFrontendAddr
  unfoldable pub get_frontend_addr : List ℕ → List ℕ → List ℕ → List ℕ → List ℕ
  get_frontend_addr front_sock front_host ip_prefix front_port =
      let host = host_of front_host ip_prefix in
      if not (is_empty front_sock)
      then front_sock
      else if not (is_empty front_port) && not (is_empty host)
      then host ++ b':' ∷ front_port
      else []

  module _ (c : Cfg) where
    open c use {read_string, read_int}

    -- loadConfInt
    abbrev pub load_conf_int : Entry → ℤ → Option ℕ
    load_conf_int e default = elim (read_int e default) [ pos v ↦ some v | negsuc v ↦ none ]

    -- an entry without a default, trimmed
    abbrev pub trimmed : Entry → List ℕ
    trimmed e = trim_space (read_string e [])

    -- FrontSock, as an absolute path
    abbrev pub front_sock_of : List ℕ → List ℕ
    front_sock_of name = if is_empty name then name else o.absolute name

    -- The product's name, with its default
    abbrev pub product_of : List ℕ
    product_of = read_string product_key (b't' ∷ b'e' ∷ b's' ∷ b't' ∷ [])

    abbrev is_one : ℤ → Bool
    is_one (pos n) = n == 1
    is_one (negsuc n) = false

    -- LoadConf, once its tests are passed
    unfoldable pub loaded : ℕ → ℕ → Config
    loaded timeout verbosity =
        let sock = front_sock_of (trimmed front_sock_key) in
        let host = trimmed front_host_key in
        let port = trimmed front_port_key in
        let prefix = trimmed ip_prefix_key in
        record {
          product_name = product_of;
          service = trimmed service_key;
          zk_addr = trim_space (read_string zk_key []);
          zk_session_timeout = timeout;
          front_host = host;
          front_port = port;
          front_sock = sock;
          frontend_addr = get_frontend_addr sock host prefix port;
          ip_prefix = prefix;
          back_addr = trimmed back_address_key;
          proxy_addr = trimmed proxy_address_key;
          profile = is_one (read_int profile_key (pos 0));
          verbose = verbosity == 1;
        }

    -- LoadConf: the address of ZooKeeper is tested before it is trimmed.
    unfoldable pub load_conf : Option Config
    load_conf =
        if is_empty product_of || is_empty (read_string zk_key [])
        then none
        else elim (load_conf_int zk_session_timeout_key (pos 30)) [
          | none ↦ none
          | some timeout ↦ elim (load_conf_int verbose_key (pos 0)) [
            | none ↦ none
            | some verbosity ↦ some (loaded timeout verbosity)
          ]
        ]

-- ConfigCheckThriftService
unfoldable pub config_check_thrift_service : Config → Bool
config_check_thrift_service conf = not (
    is_empty conf.product_name
    || is_empty conf.frontend_addr
    || is_empty conf.service
    || is_empty conf.zk_addr)

-- ConfigCheckRpcProxy
unfoldable pub config_check_rpc_proxy : Config → Bool
config_check_rpc_proxy conf =
    not (is_empty conf.product_name || is_empty conf.zk_addr || is_empty conf.proxy_addr)

-- ConfigCheckRpcLB
unfoldable pub config_check_rpc_lb : Config → Bool
config_check_rpc_lb conf = not (
    is_empty conf.product_name
    || is_empty conf.zk_addr
    || is_empty conf.service
    || is_empty conf.back_addr
    || is_empty conf.frontend_addr)

-- RpcMain, from the file to the configuration that a server is made of; its working directory and the
-- version of its code are left out.
unfoldable pub configured : Host → Cfg → (Config → Bool) → Option Config
configured o c config_check = elim (load_conf o c) [
  | none ↦ none
  | some conf ↦ if config_check conf then some conf else none
]
