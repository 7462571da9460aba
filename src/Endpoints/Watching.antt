-- ===== src/Endpoints/Watching.antt =====
-- What a round of the watch does to the connections of a service.
use rpc_proxy.Prelude.{
  ℕ, ◌≡◌, refl, sym, subst, ◌∙◌, Bool, true, false, Option, none, some, List, [], ◌∷◌, arith,
  bytes_eq, find, same_find, find-remove, find-put, Option-cases, Bool-cases, inl, inr,
}
use rpc_proxy.Endpoints.{
  Endpoints, collect, ensure_conn, ensure_each, retire, retire_each, watch_round,
}

-- A connection that stands under an address and is not marked offline.
abbrev Live : List ℕ → ℕ → Endpoints → Type 0
Live addr c s = (find addr s.addr_to_conn ≡ some c) × (s.is_mark_offline c ≡ false)

ensure_conn-Live :
    (k addr : List ℕ) (c : ℕ) (s : Endpoints) → Live addr c s → Live addr c (ensure_conn k s)
unfolding ensure_conn
ensure_conn-Live k addr c s h = elim (Option-cases (find k s.addr_to_conn)) [
  | inl absent ↦
      ground (arith, find-put k addr s.fresh s.addr_to_conn, same_find k addr s.addr_to_conn)
  | inr (d, there) ↦
      ground (arith, find-put k addr s.fresh s.addr_to_conn, same_find k addr s.addr_to_conn)
]

ensure_each-Live :
    (m : List (List ℕ × Bool)) (addr : List ℕ) (c : ℕ) (s : Endpoints)
    → Live addr c s
    → Live addr c (ensure_each m s)
unfolding ensure_each
ensure_each-Live [] addr c s h = h
ensure_each-Live ((k, b) ∷ m) addr c s h =
    ensure_each-Live m addr c (ensure_conn k s) (ensure_conn-Live k addr c s h)

-- An address of the set is not taken away.
retire-kept :
    (m : List (List ℕ × Bool)) (k addr : List ℕ) (d c : ℕ) (b : Bool) (s : Endpoints)
    → find addr m ≡ some b
    → find addr s.addr_to_conn ≡ some c
    → find addr (retire m k d s).addr_to_conn ≡ some c
unfolding retire
retire-kept m k addr d c b s wanted h =
    ground (arith, find-remove k addr s.addr_to_conn, same_find k addr m)

retire_each-kept :
    (m : List (List ℕ × Bool)) (l : List (List ℕ × ℕ)) (addr : List ℕ) (c : ℕ) (b : Bool)
    (s : Endpoints)
    → find addr m ≡ some b
    → find addr s.addr_to_conn ≡ some c
    → find addr (retire_each m l s).addr_to_conn ≡ some c
unfolding retire_each
retire_each-kept m [] addr c b s wanted h = h
retire_each-kept m ((k, d) ∷ l) addr c b s wanted h =
    retire_each-kept m l addr c b (retire m k d s) wanted (retire-kept m k addr d c b s wanted h)

-- After a round of the watch, an address that is among the endpoints has the connection that it
-- had, where it had one that was not marked offline.
pub watch_round-connected :
    (is_test : Bool) (endpoints : List (Option (List ℕ))) (addr : List ℕ) (c : ℕ) (b : Bool)
    (s : Endpoints)
    → find addr (collect is_test endpoints) ≡ some b
    → find addr s.addr_to_conn ≡ some c
    → s.is_mark_offline c ≡ false
    → find addr (watch_round is_test endpoints s).addr_to_conn ≡ some c
unfolding watch_round
watch_round-connected is_test endpoints addr c b s wanted had live =
    let m = collect is_test endpoints in
    let t = ensure_each m s in
    retire_each-kept m t.addr_to_conn addr c b t wanted (ensure_each-Live m addr c s (had, live)).0

-- The set's addresses do not touch another one.
ensure_conn-other :
    (k addr : List ℕ) (s : Endpoints)
    → bytes_eq k addr ≡ false
    → find addr (ensure_conn k s).addr_to_conn ≡ find addr s.addr_to_conn
unfolding ensure_conn
ensure_conn-other k addr s other = elim (Option-cases (find k s.addr_to_conn)) [
  | inl absent ↦ ground (arith, find-put k addr s.fresh s.addr_to_conn)
  | inr (d, there) ↦ ground (arith, find-put k addr s.fresh s.addr_to_conn)
]

ensure_each-other :
    (m : List (List ℕ × Bool)) (addr : List ℕ) (s : Endpoints)
    → find addr m ≡ none
    → find addr (ensure_each m s).addr_to_conn ≡ find addr s.addr_to_conn
unfolding ensure_each find
ensure_each-other [] addr s h = refl
ensure_each-other ((k, b) ∷ m) addr s h = elim (Bool-cases (bytes_eq k addr)) [
  | inl same ↦ ground arith
  | inr other ↦
      ensure_each-other m addr (ensure_conn k s) (ground arith) ∙ ensure_conn-other k addr s other
]

-- A retired address stays away, and its connection stays marked.
abbrev Retired : List ℕ → ℕ → Endpoints → Type 0
Retired addr c s = (find addr s.addr_to_conn ≡ none) × (s.is_mark_offline c ≡ true)

retire-Retired :
    (m : List (List ℕ × Bool)) (k addr : List ℕ) (d c : ℕ) (s : Endpoints)
    → Retired addr c s
    → Retired addr c (retire m k d s)
unfolding retire
retire-Retired m k addr d c s h = ground (arith, find-remove k addr s.addr_to_conn)

retire_each-Retired :
    (m : List (List ℕ × Bool)) (l : List (List ℕ × ℕ)) (addr : List ℕ) (c : ℕ) (s : Endpoints)
    → Retired addr c s
    → Retired addr c (retire_each m l s)
unfolding retire_each
retire_each-Retired m [] addr c s h = h
retire_each-Retired m ((k, d) ∷ l) addr c s h =
    retire_each-Retired m l addr c (retire m k d s) (retire-Retired m k addr d c s h)

retire_here :
    (m : List (List ℕ × Bool)) (k addr : List ℕ) (c : ℕ) (s : Endpoints)
    → bytes_eq k addr ≡ true
    → find addr m ≡ none
    → Retired addr c (retire m k c s)
unfolding retire
retire_here m k addr c s same gone =
    ground (arith, find-remove k addr s.addr_to_conn, same_find k addr m same)

retire_each-retires :
    (m : List (List ℕ × Bool)) (l : List (List ℕ × ℕ)) (addr : List ℕ) (c : ℕ) (s : Endpoints)
    → find addr m ≡ none
    → find addr l ≡ some c
    → Retired addr c (retire_each m l s)
unfolding retire_each find
retire_each-retires m [] addr c s gone h = cc
retire_each-retires m ((k, d) ∷ l) addr c s gone h = elim (Bool-cases (bytes_eq k addr)) [
  | inl same ↦
      let e : d ≡ c = ground arith in
      retire_each-Retired m l addr c (retire m k d s)
        (subst (λ n. Retired addr c (retire m k n s)) (sym e) (retire_here m k addr c s same gone))
  | inr other ↦ retire_each-retires m l addr c (retire m k d s) gone (ground arith)
]

-- After a round of the watch, an address that is not among the endpoints any more has no
-- connection, and the connection that it had is marked offline.
pub watch_round-retired :
    (is_test : Bool) (endpoints : List (Option (List ℕ))) (addr : List ℕ) (c : ℕ) (s : Endpoints)
    → find addr (collect is_test endpoints) ≡ none
    → find addr s.addr_to_conn ≡ some c
    → (find addr (watch_round is_test endpoints s).addr_to_conn ≡ none)
      × ((watch_round is_test endpoints s).is_mark_offline c ≡ true)
unfolding watch_round
watch_round-retired is_test endpoints addr c s gone had =
    let m = collect is_test endpoints in
    let t = ensure_each m s in
    retire_each-retires m t.addr_to_conn addr c t gone (ensure_each-other m addr s gone ∙ had)
