-- ===== src/Config/Examples.antt =====
-- A load balancer whose host is found by its prefix.
use rpc_proxy.Prelude.{ℕ, ◌≡◌, ◌≢◌, refl, false, some, List, [], ◌∷◌}
use rpc_proxy.Topology.Paths.{has_prefix}
use rpc_proxy.Config.{
  Entry, zk_key, service_key, front_port_key, ip_prefix_key, back_address_key, Cfg, Host, Config,
  load_conf, loaded, configured, config_check_rpc_lb, get_frontend_addr, get_ip_with_prefix,
  first_with, trim_left, trim_right,
}
use rpc_proxy.Config.Checked.{Listens, configured-Listens}

abbrev host : Host
host = record {
  interfaces = ((b'1' ∷ b'2' ∷ []) ∷ []) ∷ ((b'1' ∷ b'0' ∷ []) ∷ []) ∷ [];
  absolute = λ name. b'/' ∷ name;
}

abbrev entries : Entry → List ℕ → List ℕ
entries zk_key default = 32 ∷ b'z' ∷ 10 ∷ []
entries service_key default = b's' ∷ []
entries front_port_key default = b'8' ∷ []
entries ip_prefix_key default = b'1' ∷ b'0' ∷ []
entries back_address_key default = b'b' ∷ []
entries _ default = default

abbrev file : Cfg
file = record { read_string = entries; read_int = λ e default. default }

abbrev conf : Config
conf = record {
  product_name = b't' ∷ b'e' ∷ b's' ∷ b't' ∷ [];
  service = b's' ∷ [];
  zk_addr = b'z' ∷ [];
  zk_session_timeout = 30;
  front_host = [];
  front_port = b'8' ∷ [];
  front_sock = [];
  frontend_addr = b'1' ∷ b'0' ∷ b':' ∷ b'8' ∷ [];
  ip_prefix = b'1' ∷ b'0' ∷ [];
  back_addr = b'b' ∷ [];
  proxy_addr = [];
  profile = false;
  verbose = false;
}

conf_read : configured host file config_check_rpc_lb ≡ some conf
unfolding configured load_conf loaded config_check_rpc_lb get_frontend_addr get_ip_with_prefix
    first_with trim_left trim_right has_prefix
conf_read = refl

configured-Listens_example :
    (conf.product_name ≢ [])
    × (conf.service ≢ [])
    × (conf.zk_addr ≢ [])
    × (conf.back_addr ≢ [])
    × Listens conf
configured-Listens_example = configured-Listens host file conf conf_read
