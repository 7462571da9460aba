-- ===== src/Server/Workers.antt =====
-- BackServiceLB.run of proxy/backend_service_lb.go: the socket that the workers connect to, and the list of
-- connections that comes of it. `none` is a panic. The number of a connection is that of its transport.
use mathlib.Core.List.{append_assoc, append-nil}
use rpc_proxy.Prelude.{
  ℕ, ◌≡◌, ◌≢◌, refl, sym, ap, ◌∙◌, Bool, true, false, not, if◌then◌else◌, Option, none, some, List,
  [], ◌∷◌, ◌++◌, map, get_elem?, get_elem?-lt, get_elem?-append_left, get_elem?-append_end,
  length-append, update, arith,
}
use rpc_proxy.Endpoints.{has_colon}
use rpc_proxy.Pool.{Pool, empty}
use rpc_proxy.Pool.Invariant.{Listed, append-Listed}
use rpc_proxy.Pool.LoadBalancer.{accept_conn, state_changed}
use rpc_proxy.Server.Accepting.{Accepted, Sockets}

-- NewBackendConnLB, as far as the list is concerned. The goroutine Run that it starts comes in below,
-- where the connection breaks off.
abbrev pub new_conn : ℕ → Pool → Pool
new_conn c s = record s {
  index = update s.index c none;
  is_conn_active = update s.is_conn_active c true;
}

-- MarkConnActiveFalse of a connection, by its Run or its loopReader
abbrev pub break_off : Bool → ℕ → Pool → Option Pool
break_off verbose c s =
    let t = record s { is_conn_active = update s.is_conn_active c false } in
    if s.is_conn_active c then state_changed verbose c t else some t

unfoldable pub all_break_off : Bool → List ℕ → Pool → Option Pool
all_break_off verbose [] s = some s
all_break_off verbose (c ∷ cs) s = elim (break_off verbose c s) [
  | none ↦ none
  | some t ↦ all_break_off verbose cs t
]

-- For each connection that comes, those that break off before it is in the list, and those that do so
-- after that and before the next one comes.
abbrev pub Breaks : Type 0
Breaks = ℕ → List ℕ × List ℕ

-- `for trans := range s.ch`; what is no SocketAddr is a panic.
unfoldable pub accept_workers : Bool → Breaks → List Accepted → Pool → Option Pool
accept_workers verbose breaks [] s = some s
accept_workers verbose breaks (c ∷ cs) s = elim c.addr [
  | none ↦ none
  | some a ↦ elim (all_break_off verbose (breaks c.transport).0 (new_conn c.transport s)) [
    | none ↦ none
    | some t ↦ elim (all_break_off verbose (breaks c.transport).1 (accept_conn c.transport t)) [
      | none ↦ none
      | some u ↦ accept_workers verbose breaks cs u
    ]
  ]
]

-- run: both errors of the socket are panics.
unfoldable pub run_workers : Bool → Breaks → Sockets → List ℕ → Pool → Option Pool
run_workers verbose breaks o addr s =
    let is_unix_domain = not (has_colon addr) in
    elim (o.new_server is_unix_domain addr) [
      | some e ↦ none
      | none ↦ elim (o.listen is_unix_domain addr) [
        | some e ↦ none
        | none ↦ accept_workers verbose breaks o.accept s
      ]
    ]

abbrev pub NotIn : ℕ → List ℕ → Type 0
NotIn c xs = (j : ℕ) → get_elem? xs j ≢ some c

-- Each has an address, and a transport of its own.
abbrev pub AreWorkers : List ℕ → List Accepted → Type 0
AreWorkers before [] = Unit {0}
AreWorkers before (c ∷ cs) =
    ((a : List ℕ) × (c.addr ≡ some a))
    × NotIn c.transport before
    × AreWorkers (before ++ c.transport ∷ []) cs

-- The list and the indices agree, and all in the list are active.
pub record AllWork (s : Pool) : Type 0 where
  pub listed : Listed s
  pub working : (j c : ℕ) → get_elem? s.active_conns j ≡ some c → s.is_conn_active c ≡ true

new_conn-AllWork : (c : ℕ) (s : Pool) → NotIn c s.active_conns → AllWork s → AllWork (new_conn c s)
new_conn-AllWork c s fresh w = record {
  listed = λ j d h. ground (arith, w.listed j d h, absent j d h);
  working = λ j d h. ground (arith, w.working j d h);
}
  where
    absent : (j d : ℕ) → get_elem? s.active_conns j ≡ some d → c ≢ d
    absent j d h e = fresh j (h ∙ ap some (sym e))

accept_conn-AllWork :
    (c : ℕ) (s : Pool) → NotIn c s.active_conns → AllWork s → AllWork (accept_conn c (new_conn c s))
unfolding accept_conn
accept_conn-AllWork c s fresh w =
    let n = new_conn-AllWork c s fresh w in
    record {
      listed = append-Listed c (new_conn c s) n.listed (ground arith);
      working = λ j d h. ground (
        arith,
        w.working j d,
        get_elem?-lt (s.active_conns ++ c ∷ []) j d,
        length-append {0} s.active_conns (c ∷ []),
        get_elem?-append_left s.active_conns (c ∷ []) j,
        get_elem?-append_end s.active_conns c j,
      );
    }

-- No connection breaks off while the loop goes on.
abbrev pub calm : Breaks
calm _ = ([], [])

accept_workers-AllWork :
    (verbose : Bool) (cs : List Accepted) (s : Pool)
    → AreWorkers s.active_conns cs
    → AllWork s
    → (t : Pool) × (accept_workers verbose calm cs s ≡ some t)
      × (t.active_conns ≡ s.active_conns ++ map (λ (c : Accepted). c.transport) cs)
      × AllWork t
unfolding accept_workers accept_conn all_break_off
accept_workers-AllWork verbose [] s u w = (s, refl, sym (append-nil s.active_conns), w)
accept_workers-AllWork verbose (c ∷ cs) s (a, fresh, u) w =
    let r = accept_conn c.transport (new_conn c.transport s) in
    let (t, done, order, v) =
      accept_workers-AllWork verbose cs r u (accept_conn-AllWork c.transport s fresh w) in
    (
      t,
      ground (arith, a.1, done),
      order
          ∙ append_assoc s.active_conns (c.transport ∷ []) (map (λ (x : Accepted). x.transport) cs),
      v,
    )

-- A load balancer whose socket is created and listens, and to which workers connect, each by a transport of
-- its own that has an address, where none of their connections breaks off while `run` takes them in:
-- it does not panic, its list holds their connections in the order in which they came, the
-- connections know their places, and all are active.
pub run_workers-AllWork :
    (verbose : Bool) (o : Sockets) (addr : List ℕ) (index : ℕ → Option ℕ)
    (is_conn_active : ℕ → Bool)
    → o.new_server (not (has_colon addr)) addr ≡ none
    → o.listen (not (has_colon addr)) addr ≡ none
    → AreWorkers [] o.accept
    → (t : Pool) × (run_workers verbose calm o addr (empty index is_conn_active) ≡ some t)
      × (t.active_conns ≡ map (λ (c : Accepted). c.transport) o.accept)
      × AllWork t
unfolding run_workers empty
run_workers-AllWork verbose o addr index is_conn_active made listens u =
    let s = empty index is_conn_active in
    let start : AllWork s = record {
      listed = λ j c h. ground (arith, h);
      working = λ j c h. ground (arith, h);
    } in
    let (t, done, order, w) = accept_workers-AllWork verbose o.accept s u start in
    (t, ground (arith, made, listens, done), order, w)

-- A worker whose connection breaks off before `run` has put it into the list: StateChanged finds no index
-- and does nothing, and then the connection is listed, as the last and inactive, and stays so where
-- it breaks off again.
pub accept_workers-dead :
    (verbose : Bool) (c : ℕ) (a : List ℕ) (s : Pool)
    → (t : Pool) × (accept_workers verbose
          (λ _. (c ∷ [], c ∷ []))
          (record { transport = c; addr = some a } ∷ [])
          s
        ≡ some t)
      × (t.active_conns ≡ s.active_conns ++ c ∷ [])
      × (t.is_conn_active c ≡ false)
unfolding accept_workers accept_conn all_break_off state_changed
accept_workers-dead verbose c a s =
    let n = new_conn c s in
    let dead = record n { is_conn_active = update n.is_conn_active c false } in
    let listed = accept_conn c dead in
    (
      record listed { is_conn_active = update listed.is_conn_active c false },
      ground arith,
      refl,
      ground arith,
    )
