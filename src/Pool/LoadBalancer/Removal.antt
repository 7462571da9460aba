-- ===== src/Pool/LoadBalancer/Removal.antt =====
-- What StateChanged of the load balancer does to a connection that is in the list.
use rpc_proxy.Prelude.{
  ℕ, ◌+◌, ◌-◌, ◌<◌, ◌≡◌, ◌≢◌, refl, sym, ◌∙◌, Bool, false, Option, none, some, List, ◌∷◌, [], ◌++◌,
  length, get_elem?, update, arith, ◌==◌, if◌then◌else◌, get_elem?-lt, get_elem?_of_lt, Bool-cases,
  inl, inr, ==_iff, length-take, Option-cases,
}
use rpc_proxy.Pool.{Pool, cut_last}
use rpc_proxy.Pool.LoadBalancer.{accept_conn, remove_conn, state_changed}
use rpc_proxy.Pool.Invariant.{
  Listed, Removed, Removed-inner, removed-Listed, append-Listed, moved, get_elem?-take_if,
}

abbrev pub points_to : Option ℕ → ℕ → Bool
points_to none c = false
points_to (some d) c = d == c

abbrev pub stands : List ℕ → Option ℕ → ℕ → Bool
stands xs none c = false
stands xs (some i) c = points_to (get_elem? xs i) c

-- Whether a connection is in the list, at the index that it keeps.
abbrev pub holds : Pool → ℕ → Bool
holds s c = stands s.active_conns (s.index c) c

-- What the load balancer's StateChanged leaves of a list that holds the connection.
pub record TakenOut (c : ℕ) (s t : Pool) : Type 0 where
  pub still_listed : Listed t
  pub holders : (d : ℕ) → holds t d ≡ (if c == d then false else holds s d)
  pub one_fewer : length t.active_conns + 1 ≡ length s.active_conns

module _ (c i last : ℕ) (s : Pool) (listed : Listed s) (here : get_elem? s.active_conns i ≡ some c)
    (at_last : get_elem? s.active_conns (length s.active_conns - 1) ≡ some last) where
  cut-Listed : Listed (cut_last s)
  cut-Listed j d h =
      ground (arith, get_elem?-take_if s.active_conns (length s.active_conns - 1) j, listed j d)

  cut-holds :
      length s.active_conns - 1 ≡ i
      → (d : ℕ) → holds (cut_last s) d ≡ (if c == d then false else holds s d)
  cut-holds e d = elim (Option-cases (s.index d)) [
    | inl n ↦ ground arith
    | inr (j, ix) ↦ ground (
      arith,
      get_elem?-take_if s.active_conns (length s.active_conns - 1) j,
      get_elem?-lt s.active_conns j d,
      listed i c here,
      listed j d,
    )
  ]

  Removed-holds :
      (t : Pool)
      → length s.active_conns - 1 ≢ i
      → Removed c i last s t
      → (d : ℕ) → holds t d ≡ (if c == d then false else holds s d)
  Removed-holds t ne r d = elim (Option-cases (s.index d)) [
    | inl n ↦
        ground (
          arith,
          r.indices d,
          r.elems i,
          listed _ last at_last,
          get_elem?-lt s.active_conns i c here,
        )
    | inr (j, ix) ↦ ground (
      arith,
      r.indices d,
      r.elems i,
      r.elems j,
      listed _ last at_last,
      get_elem?-lt s.active_conns i c here,
      get_elem?-lt s.active_conns j d,
    )
  ]

  in_range : i < length s.active_conns
  in_range = get_elem?-lt s.active_conns i c here

  remove_conn-TakenOut : (t : Pool) × (remove_conn c i s ≡ some t) × TakenOut c s t
  unfolding remove_conn
  remove_conn-TakenOut = elim (Bool-cases (length s.active_conns - 1 == i)) [
    | inl at_end ↦ (
      cut_last s,
      ground (arith, in_range),
      record {
        still_listed = cut-Listed;
        holders = cut-holds ((==_iff _ i).0 at_end);
        one_fewer = omega (arith, length-take (length s.active_conns - 1) s.active_conns, in_range);
      },
    )
    | inr inner ↦
        let ne : length s.active_conns - 1 ≢ i = λ e. cc (sym inner ∙ (==_iff _ i).1 e) in
        let r = Removed-inner c i last s here at_last ne in
        (
          cut_last (record (moved c i last s here at_last) {
            index = update (moved c i last s here at_last).index c none;
          }),
          ground (arith, in_range),
          record {
            still_listed = removed-Listed c i last s here at_last _ listed r;
            holders = Removed-holds _ ne r;
            one_fewer = r.fewer;
          },
        )
  ]

-- Once the connection of a worker in the list is marked inactive, the load balancer's StateChanged
-- takes out that connection and no other, does not panic, and every connection left in the list
-- still knows its place.
pub state_changed-TakenOut :
    (verbose : Bool) (c i : ℕ) (s : Pool)
    → Listed s
    → get_elem? s.active_conns i ≡ some c
    → s.is_conn_active c ≡ false
    → (t : Pool) × (state_changed verbose c s ≡ some t) × TakenOut c s t
unfolding state_changed
state_changed-TakenOut verbose c i s listed here off =
    let (last, at_last) =
      get_elem?_of_lt s.active_conns (length s.active_conns - 1)
        (omega (arith, get_elem?-lt s.active_conns i c here)) in
    let (t, done, out) = remove_conn-TakenOut c i last s listed here at_last in
    (t, ground (arith, listed i c here), out)

-- A worker that connects is put into the list, at the end; the others stay.
pub accept_conn-Listed :
    (c : ℕ) (s : Pool)
    → Listed s
    → s.index c ≡ none
    → Listed (accept_conn c s) × ((accept_conn c s).active_conns ≡ s.active_conns ++ c ∷ [])
unfolding accept_conn
accept_conn-Listed c s listed fresh = (append-Listed c s listed fresh, refl)
