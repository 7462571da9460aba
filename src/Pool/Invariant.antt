-- ===== src/Pool/Invariant.antt =====
-- The list of active connections and the indices that the connections keep agree.
use rpc_proxy.Prelude.{
  ℕ, zero, suc, ◌+◌, ◌-◌, ◌<◌, ◌≡◌, ◌≢◌, refl, ◌∙◌, sym, ap, none, some, List, [], ◌∷◌, ◌++◌,
  length, get_elem?, set, take, update, arith, get_elem?-lt, get_elem?-set_self, get_elem?-set_ne,
  length-set, length-take, length-append, get_elem?-append_left, get_elem?-append_end, ◌==◌, ltb,
  if◌then◌else◌, inl, inr, Bool-cases, ==_iff,
}
use rpc_proxy.Pool.{Pool, cut_last, append_conn, remove_conn}

-- A connection in the list knows its place.
abbrev pub Listed : Pool → Type 0
Listed s = (i c : ℕ) → get_elem? s.active_conns i ≡ some c → s.index c ≡ some i

pub record Inv (s : Pool) : Type 0 where
  pub listed : Listed s
  pub placed : (c i : ℕ) → s.index c ≡ some i → get_elem? s.active_conns i ≡ some c

-- What a removal leaves: the last connection in the place of the removed one.
pub record Removed (c i last : ℕ) (s t : Pool) : Type 0 where
  pub fewer : length t.active_conns + 1 ≡ length s.active_conns
  pub elems :
      (j : ℕ)
      → get_elem? t.active_conns j ≡ (
          if ltb j (length s.active_conns - 1)
          then if i == j then some last else get_elem? s.active_conns j
          else none)
  pub indices :
      (d : ℕ) → t.index d ≡ (if c == d then none else if last == d then some i else s.index d)
  pub same_current : t.current_conn_index ≡ s.current_conn_index
  pub same_states : t.is_conn_active ≡ s.is_conn_active

pub get_elem?-take_if :
    (xs : List ℕ) (n j : ℕ) → get_elem? (take n xs) j ≡ (if ltb j n then get_elem? xs j else none)
get_elem?-take_if xs zero j = ground arith
get_elem?-take_if [] (suc n) j = ground arith
get_elem?-take_if (x ∷ xs) (suc n) zero = ground arith
get_elem?-take_if (x ∷ xs) (suc n) (suc j) = ground (arith, get_elem?-take_if xs n j)

get_elem?-set_if :
    (xs : List ℕ) (i j v : ℕ)
    → i < length xs
    → get_elem? (set xs i v) j ≡ (if i == j then some v else get_elem? xs j)
get_elem?-set_if xs i j v h = elim (Bool-cases (i == j)) [
  | inl e ↦ rw e (let same = (==_iff i j).0 e in rw (sym same) (get_elem?-set_self xs i v h))
  | inr n ↦ rw n (get_elem?-set_ne xs v (λ e. cc (sym n ∙ (==_iff i j).1 e)))
]

-- In both cases the connections in front of the last place are those of the moved list.
module _ (c i last : ℕ) (s : Pool) (here : get_elem? s.active_conns i ≡ some c)
    (at_last : get_elem? s.active_conns (length s.active_conns - 1) ≡ some last) where
  in_range : i < length s.active_conns
  in_range = get_elem?-lt s.active_conns i c here

  Removed-last :
      length s.active_conns - 1 ≡ i
      → Removed c i last s (cut_last (record s { index = update s.index c none }))
  Removed-last e = record {
    fewer = omega (arith, length-take (length s.active_conns - 1) s.active_conns, in_range);
    elems = λ j. ground (arith, get_elem?-take_if s.active_conns (length s.active_conns - 1) j);
    indices = λ d. ground (arith, same);
    same_current = refl;
    same_states = refl;
  }
    where
      same : last ≡ c
      same = cc (ap (get_elem? s.active_conns) e, here)

  abbrev pub moved : Pool
  moved = record s {
    active_conns = set s.active_conns i last;
    index = update s.index last (some i);
  }

  pub Removed-inner :
      length s.active_conns - 1 ≢ i
      → Removed c i last s (cut_last (record moved { index = update moved.index c none }))
  Removed-inner ne = record {
    fewer = omega (
      arith,
      length-take (length (set s.active_conns i last) - 1) (set s.active_conns i last),
      length-set s.active_conns i last,
      in_range,
    );
    elems = λ j. ground (
      arith,
      get_elem?-take_if (set s.active_conns i last) (length (set s.active_conns i last) - 1) j,
      length-set s.active_conns i last,
      get_elem?-set_if s.active_conns i j last in_range,
    );
    indices = λ d. refl;
    same_current = refl;
    same_states = refl;
  }

  -- Removing a listed connection succeeds.
  pub remove_conn-Removed : (t : Pool) × (remove_conn c i s ≡ some t) × Removed c i last s t
  unfolding remove_conn
  remove_conn-Removed = elim (Bool-cases (length s.active_conns - 1 == i)) [
    | inl at_end ↦ (
      cut_last (record s { index = update s.index c none }),
      ground (arith, in_range),
      Removed-last ((==_iff _ i).0 at_end),
    )
    | inr inner ↦ (
      cut_last (record moved { index = update moved.index c none }),
      ground (arith, in_range),
      Removed-inner (λ e. cc (sym inner ∙ (==_iff _ i).1 e)),
    )
  ]

  pub removed-Listed : (t : Pool) → Listed s → Removed c i last s t → Listed t
  removed-Listed t listed r j d h =
      ground (arith, r.elems j, r.indices d, listed j d, listed i c here, listed _ last at_last)

-- A connection without an index may be appended.
pub append-Listed : (c : ℕ) (s : Pool) → Listed s → s.index c ≡ none → Listed (append_conn c s)
append-Listed c s listed fresh j d h = ground (
  arith,
  listed j d,
  get_elem?-lt (s.active_conns ++ c ∷ []) j d,
  length-append {0} s.active_conns (c ∷ []),
  get_elem?-append_left s.active_conns (c ∷ []) j,
  get_elem?-append_end s.active_conns c j,
)
