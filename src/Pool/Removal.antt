-- ===== src/Pool/Removal.antt =====
-- StateChanged keeps the list and the indices in agreement, and changes the set of active
-- connections by the one connection that it is about.
use rpc_proxy.Prelude.{
  ℕ, ◌-◌, ◌≡◌, refl, Bool, true, false, Option, none, some, [], ◌∷◌, length, get_elem?, arith,
  get_elem?-lt, get_elem?_of_lt, get_elem?-append_left, get_elem?-append_end, ◌==◌, if◌then◌else◌,
  inl, inr, Option-cases, Bool-cases,
}
use rpc_proxy.Pool.{Pool, state_changed, append_conn, remove_conn}
use rpc_proxy.Pool.Invariant.{Inv, Removed, remove_conn-Removed, removed-Listed, append-Listed}

-- The abstract pool: which connections are in it.
abbrev pub is_some : Option ℕ → Bool
is_some none = false
is_some (some _) = true

abbrev pub member : Pool → ℕ → Bool
member s c = is_some (s.index c)

module _ (c i last : ℕ) (s t : Pool) (ix : s.index c ≡ some i) (inv : Inv s)
    (at_last : get_elem? s.active_conns (length s.active_conns - 1) ≡ some last)
    (r : Removed c i last s t) where
  removed-placed : (d j : ℕ) → t.index d ≡ some j → get_elem? t.active_conns j ≡ some d
  removed-placed d j h = ground (
    arith,
    r.elems j,
    r.indices d,
    r.fewer,
    inv.placed d j,
    inv.placed c i ix,
    get_elem?-lt s.active_conns j d,
    get_elem?-lt s.active_conns i c,
  )

  removed-Inv : Inv t
  removed-Inv =
      let here : get_elem? s.active_conns i ≡ some c = inv.placed c i ix in
      record {
        listed = removed-Listed c i last s here at_last t inv.listed r;
        placed = removed-placed;
      }

  removed-member : (d : ℕ) → member t d ≡ (if c == d then false else member s d)
  removed-member d = ground (arith, r.indices d, inv.listed _ last at_last)

-- What StateChanged promises of the pool it leaves.
pub record Updated (c : ℕ) (s t : Pool) : Type 0 where
  pub agrees : Inv t
  pub members : (d : ℕ) → member t d ≡ (if c == d then s.is_conn_active c else member s d)
  pub same_current : t.current_conn_index ≡ s.current_conn_index
  pub same_states : t.is_conn_active ≡ s.is_conn_active

module _ (c : ℕ) (s : Pool) (inv : Inv s) where
  append-placed :
      s.index c ≡ none
      → (d j : ℕ) → (append_conn c s).index d ≡ some j
      → get_elem? (append_conn c s).active_conns j ≡ some d
  append-placed fresh d j h = ground (
    arith,
    inv.placed d j,
    get_elem?-lt s.active_conns j d,
    get_elem?-append_left s.active_conns (c ∷ []) j,
    get_elem?-append_end s.active_conns c j,
  )

  append-Inv : s.index c ≡ none → Inv (append_conn c s)
  append-Inv fresh = record {
    listed = append-Listed c s inv.listed fresh;
    placed = append-placed fresh;
  }

  unchanged : member s c ≡ s.is_conn_active c → Updated c s s
  unchanged m = record {
    agrees = inv;
    members = λ d. ground (arith, m);
    same_current = refl;
    same_states = refl;
  }

  appended : s.index c ≡ none → s.is_conn_active c ≡ true → Updated c s (append_conn c s)
  appended fresh on = record {
    agrees = append-Inv fresh;
    members = λ d. ground arith;
    same_current = refl;
    same_states = refl;
  }

  removed :
      (i : ℕ)
      → s.index c ≡ some i
      → s.is_conn_active c ≡ false
      → (t : Pool) × (remove_conn c i s ≡ some t) × Updated c s t
  removed i ix off =
      let here : get_elem? s.active_conns i ≡ some c = inv.placed c i ix in
      let (last, at_last) =
        get_elem?_of_lt s.active_conns (length s.active_conns - 1)
          (omega (arith, get_elem?-lt s.active_conns i c here)) in
      let (t, done, r) = remove_conn-Removed c i last s here at_last in
      (
        t,
        done,
        record {
          agrees = removed-Inv c i last s t ix inv at_last r;
          members = λ d. rw off (removed-member c i last s t ix inv at_last r d);
          same_current = r.same_current;
          same_states = r.same_states;
        },
      )

  -- StateChanged never panics on a pool whose indices agree with its list, keeps that agreement,
  -- and makes the connection a member exactly when it is active; no other connection enters or
  -- leaves, and the round-robin position stays.
  pub state_changed-Updated : (t : Pool) × (state_changed c s ≡ some t) × Updated c s t
  unfolding state_changed
  state_changed-Updated = elim (Bool-cases (s.is_conn_active c)) [
    | inl on ↦ elim (Option-cases (s.index c)) [
      | inl fresh ↦ (append_conn c s, ground arith, appended fresh on)
      | inr (i, ix) ↦ (s, ground arith, unchanged (ground arith))
    ]
    | inr off ↦ elim (Option-cases (s.index c)) [
      | inl fresh ↦ (s, ground arith, unchanged (ground arith))
      | inr (i, ix) ↦ let (t, done, u) = removed i ix off in (t, ground (arith, done), u)
    ]
  ]
