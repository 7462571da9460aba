-- ===== src/Config/Checked.antt =====
-- What a server knows of the configuration that it is started with.
use rpc_proxy.Prelude.{
  ℕ, ◌≡◌, ◌≢◌, refl, sym, ap, ◌∙◌, subst, ◌⊎◌, inl, inr, Bool, true, false, ◌&&◌, ◌||◌, not, some,
  List, [], ◌∷◌, ◌++◌, arith, Bool-cases, Option-cases,
}
use mathlib.Core.Option.{some-injective}
use rpc_proxy.Topology.Paths.{has_prefix}
use rpc_proxy.Endpoints.{has_colon}
use rpc_proxy.Config.{
  pos, Host, Cfg, Config, zk_key, zk_session_timeout_key, verbose_key, product_of, load_conf_int,
  is_empty, first_with, get_ip_with_prefix, host_of, get_frontend_addr, load_conf, loaded,
  configured, config_check_rpc_lb, config_check_thrift_service,
}

not_empty : (s : List ℕ) → is_empty s ≡ false → s ≢ []
not_empty s h e = absurd (ground (arith, h, ap is_empty e))

first_with-prefix :
    (prefix a : List ℕ) (as_ : List (List ℕ))
    → first_with prefix as_ ≡ some a
    → has_prefix prefix a ≡ true
unfolding first_with
first_with-prefix prefix a [] h = ground (arith, h)
first_with-prefix prefix a (b ∷ bs) h = elim (Bool-cases (has_prefix prefix b)) [
  | inl fits ↦
      let same : some b ≡ some a = ground (arith, h, fits) in
      subst (λ x. has_prefix prefix x ≡ true) (some-injective b a same) fits
  | inr other ↦ first_with-prefix prefix a bs (ground (arith, h, other))
]

get_ip-prefix :
    (prefix : List ℕ) (is : List (List (List ℕ)))
    → (is_empty (get_ip_with_prefix prefix is) ≡ true)
      ⊎ (has_prefix prefix (get_ip_with_prefix prefix is) ≡ true)
unfolding get_ip_with_prefix
get_ip-prefix prefix [] = inl refl
get_ip-prefix prefix (i ∷ rest) = elim (Option-cases (first_with prefix i)) [
  | inl missing ↦ rw (missing, get_ip_with_prefix) (get_ip-prefix prefix rest)
  | inr (a, found) ↦ rw (found, get_ip_with_prefix) (inr (first_with-prefix prefix a i found))
]

-- A host and a port, joined by a colon: the host is the one of the file, or an address of this host that
-- begins with the prefix of the file.
pub record OverTcp (conf : Config) : Type 0 where
  pub host : List ℕ
  pub some_host : host ≢ []
  pub some_port : conf.front_port ≢ []
  pub joined : conf.frontend_addr ≡ host ++ b':' ∷ conf.front_port
  pub tcp : has_colon conf.frontend_addr ≡ true
  pub chosen : (host ≡ conf.front_host) ⊎ (has_prefix conf.ip_prefix host ≡ true)

-- The address that a server listens at: the socket's path, where there is one, or host and port.
abbrev pub Listens : Config → Type 0
Listens conf = ((conf.front_sock ≢ []) × (conf.frontend_addr ≡ conf.front_sock)) ⊎ OverTcp conf

has_colon-append : (a b : List ℕ) → has_colon (a ++ b':' ∷ b) ≡ true
has_colon-append [] b = refl
has_colon-append (c ∷ cs) b = ground (arith, has_colon-append cs b)

module _ (o : Host) where
  host_of-chosen :
      (front_host ip_prefix : List ℕ)
      → is_empty (host_of o front_host ip_prefix) ≡ false
      → (host_of o front_host ip_prefix ≡ front_host)
        ⊎ (has_prefix ip_prefix (host_of o front_host ip_prefix) ≡ true)
  host_of-chosen front_host ip_prefix h =
      elim (Bool-cases (is_empty front_host && not (is_empty ip_prefix))) [
        | inr given ↦ inl (ground (arith, given))
        | inl searched ↦ elim (get_ip-prefix ip_prefix o.interfaces) [
          | inl nothing ↦ absurd (ground (arith, h, searched, nothing))
          | inr fits ↦ inr (ground (arith, searched, fits))
        ]
      ]

  get_frontend_addr-cases :
      (front_sock front_host ip_prefix front_port : List ℕ)
      → is_empty (get_frontend_addr o front_sock front_host ip_prefix front_port) ≡ false
      → ((is_empty front_sock ≡ false)
          × (get_frontend_addr o front_sock front_host ip_prefix front_port ≡ front_sock))
        ⊎ ((is_empty front_port ≡ false)
            × (is_empty (host_of o front_host ip_prefix) ≡ false)
            × (get_frontend_addr o front_sock front_host ip_prefix front_port
                ≡ host_of o front_host ip_prefix ++ b':' ∷ front_port))
  unfolding get_frontend_addr
  get_frontend_addr-cases front_sock front_host ip_prefix front_port h =
      elim (Bool-cases (is_empty front_sock)) [
        | inr given ↦ inl (given, ground (arith, given))
        | inl without ↦
            elim (Bool-cases (is_empty front_port || is_empty (host_of o front_host ip_prefix))) [
              | inl missing ↦ absurd (ground (arith, h, without, missing))
              | inr both ↦
                  inr (ground (arith, both), ground (arith, both), ground (arith, without, both))
            ]
      ]

  module _ (c : Cfg) where
    loaded-Listens :
        (timeout verbosity : ℕ)
        → is_empty (loaded o c timeout verbosity).frontend_addr ≡ false
        → Listens (loaded o c timeout verbosity)
    unfolding loaded
    loaded-Listens timeout verbosity h =
        let conf = loaded o c timeout verbosity in
        elim (get_frontend_addr-cases conf.front_sock conf.front_host conf.ip_prefix conf.front_port
          h) [
            | inl (given, same) ↦ inl (not_empty _ given, same)
            | inr (port, host, joined) ↦ inr (record {
              host = host_of o conf.front_host conf.ip_prefix;
              some_host = not_empty _ host;
              some_port = not_empty _ port;
              joined = joined;
              tcp =
                  ap has_colon joined
                  ∙ has_colon-append (host_of o conf.front_host conf.ip_prefix) conf.front_port;
              chosen = host_of-chosen conf.front_host conf.ip_prefix host;
            })
          ]

    load_conf-loaded :
        (conf : Config)
        → load_conf o c ≡ some conf
        → (timeout verbosity : ℕ) × (loaded o c timeout verbosity ≡ conf)
    unfolding load_conf
    load_conf-loaded conf h =
        elim (Bool-cases (is_empty (product_of o c) || is_empty (c.read_string zk_key []))) [
          | inl missing ↦ absurd (ground (arith, h, missing))
          | inr there ↦ elim (Option-cases (load_conf_int o c zk_session_timeout_key (pos 30))) [
            | inl negative ↦ absurd (ground (arith, h, there, negative))
            | inr (timeout, e) ↦ elim (Option-cases (load_conf_int o c verbose_key (pos 0))) [
              | inl negative ↦ absurd (ground (arith, h, there, e, negative))
              | inr (verbosity, d) ↦ (timeout, verbosity, ground (arith, h, there, e, d))
            ]
          ]
        ]

    configured-checked :
        (check : Config → Bool) (conf : Config)
        → configured o c check ≡ some conf
        → (check conf ≡ true) × (load_conf o c ≡ some conf)
    unfolding configured
    configured-checked check conf h = elim (Option-cases (load_conf o c)) [
      | inl failed ↦ absurd (ground (arith, h, failed))
      | inr (d, e) ↦ elim (Bool-cases (check d)) [
        | inr refused ↦ absurd (ground (arith, h, e, refused))
        | inl passed ↦
            let same : d ≡ conf = some-injective d conf (ground (arith, h, e, passed)) in
            (ap check (sym same) ∙ passed, e ∙ ap some same)
      ]
    ]

    listens :
        (conf : Config)
        → load_conf o c ≡ some conf
        → is_empty conf.frontend_addr ≡ false
        → Listens conf
    listens conf h some_addr =
        let (timeout, verbosity, same) = load_conf-loaded conf h in
        subst Listens same
          (loaded-Listens timeout verbosity (ap (λ x. is_empty x.frontend_addr) same ∙ some_addr))

    -- The configuration that a load balancer is started with, after LoadConf and its check: product,
    -- service, the address of ZooKeeper and the one for the workers are not empty, and it listens for
    -- its clients at the path of a socket, or at host and port, over TCP, neither of them empty; a host
    -- that the file does not name is one whose address begins with the prefix in the file.
    pub configured-Listens :
        (conf : Config)
        → configured o c config_check_rpc_lb ≡ some conf
        → (conf.product_name ≢ [])
          × (conf.service ≢ [])
          × (conf.zk_addr ≢ [])
          × (conf.back_addr ≢ [])
          × Listens conf
    unfolding config_check_rpc_lb
    configured-Listens conf h =
        let (passed, e) = configured-checked config_check_rpc_lb conf h in
        (
          not_empty conf.product_name (ground (arith, passed)),
          not_empty conf.service (ground (arith, passed)),
          not_empty conf.zk_addr (ground (arith, passed)),
          not_empty conf.back_addr (ground (arith, passed)),
          listens conf e (ground (arith, passed)),
        )

    -- The same of a server of the repository's own, which has no workers.
    pub configured-Listens_thrift :
        (conf : Config)
        → configured o c config_check_thrift_service ≡ some conf
        → (conf.product_name ≢ []) × (conf.service ≢ []) × (conf.zk_addr ≢ []) × Listens conf
    unfolding config_check_thrift_service
    configured-Listens_thrift conf h =
        let (passed, e) = configured-checked config_check_thrift_service conf h in
        (
          not_empty conf.product_name (ground (arith, passed)),
          not_empty conf.service (ground (arith, passed)),
          not_empty conf.zk_addr (ground (arith, passed)),
          listens conf e (ground (arith, passed)),
        )
