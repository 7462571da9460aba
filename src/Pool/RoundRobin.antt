-- ===== src/Pool/RoundRobin.antt =====
-- NextBackendConn hands out the active connections in turn.
use mathlib.Core.List.{Perm, perm_append_comm, append_assoc, append-nil}
use native.Mathlib.Nat.{suc-add, add-zero}
use rpc_proxy.Prelude.{
  ℕ, zero, suc, ◌+◌, ◌-◌, ◌<◌, ◌≤◌, ◌≡◌, refl, sym, ap, subst, ◌∙◌, Option, none, some, List, [],
  ◌∷◌, ◌++◌, length, get_elem?, take, drop, arith, length-append, length-take, length-drop,
  take-append-drop, leb, inl, inr, Bool-cases, get_elem?-lt, ap₂, leb→le, leb→lt,
}
use rpc_proxy.Pool.{Pool, wrapped, next_backend_conn}

-- The connections that successive calls return, up to a call that returns none.
abbrev pick : Option (Option ℕ × Pool) → (Pool → List ℕ) → List ℕ
pick none rest = []
pick (some (none, t)) rest = []
pick (some (some c, t)) rest = c ∷ rest t

unfoldable pub picks : ℕ → Pool → List ℕ
picks zero s = []
picks (suc n) s = pick (next_backend_conn s) (picks n)

get_elem?-middle : (xs ys : List ℕ) (y : ℕ) → get_elem? (xs ++ y ∷ ys) (length xs) ≡ some y
get_elem?-middle [] ys y = refl
get_elem?-middle (x ∷ xs) ys y = get_elem?-middle xs ys y

abbrev at : ℕ → Pool → Pool
at i s = record s { current_conn_index = i }

next_in_range :
    (s : Pool) (i c : ℕ)
    → s.current_conn_index ≡ i
    → get_elem? s.active_conns i ≡ some c
    → next_backend_conn s ≡ some (some c, at (i + 1) s)
unfolding next_backend_conn
next_in_range s i c e h = ground (arith, get_elem?-lt s.active_conns i c h)

next_past_end :
    (s : Pool)
    → 0 < length s.active_conns
    → length s.active_conns ≤ s.current_conn_index
    → next_backend_conn s ≡ next_backend_conn (at 0 s)
unfolding next_backend_conn
next_past_end s pos h = ground arith

picks_past_end :
    (m : ℕ) (s : Pool)
    → 0 < length s.active_conns
    → length s.active_conns ≤ s.current_conn_index
    → picks m s ≡ picks m (at 0 s)
unfolding picks
picks_past_end zero s pos h = refl
picks_past_end (suc m) s pos h = ap (λ r. pick r (picks m)) (next_past_end s pos h)

-- From a place in the list the calls return what stands there, one after the other.
picks_through :
    (xs ys zs : List ℕ) (i m : ℕ) (s : Pool)
    → s.active_conns ≡ xs ++ (ys ++ zs)
    → s.current_conn_index ≡ i
    → length xs ≡ i
    → picks (length ys + m) s ≡ ys ++ picks m (at (i + length ys) s)
unfolding picks
picks_through xs [] zs i m s a e h =
    ap (λ k. picks k s) (omega arith) ∙ ap (λ k. picks m (at k s)) (e ∙ sym (add-zero i))
picks_through xs (y ∷ ys) zs i m s a e h =
    let here : get_elem? s.active_conns i ≡ some y =
      ap₂ get_elem? a (sym h) ∙ get_elem?-middle xs (ys ++ zs) y in
    let rest : picks (length ys + m) (at (i + 1) s) ≡ ys ++ picks m (at (i + 1 + length ys) s) =
      picks_through (xs ++ y ∷ []) ys zs (i + 1) m (at (i + 1) s)
        (a ∙ sym (append_assoc xs (y ∷ []) (ys ++ zs))) refl
        (omega (arith, length-append xs (y ∷ []))) in
    ap (λ k. picks k s) (suc-add (length ys) m)
    ∙ ap (λ r. pick r (picks (length ys + m))) (next_in_range s i y e here)
    ∙ ap (◌∷◌ y) rest
    ∙ ap (λ k. y ∷ (ys ++ picks m (at k s))) (omega arith)

-- The calls of one round, from a place inside the list.
picks_from :
    (s : Pool) (i : ℕ)
    → s.current_conn_index ≡ i
    → i < length s.active_conns
    → picks (length s.active_conns) s ≡ drop i s.active_conns ++ take i s.active_conns
unfolding picks
picks_from s i e h =
    let before : length (take i s.active_conns) ≡ i = omega (arith, length-take i s.active_conns) in
    let behind : length (drop i s.active_conns) ≡ length s.active_conns - i =
      length-drop i s.active_conns in
    let tail_first : picks (length (drop i s.active_conns) + i) s
        ≡ drop i s.active_conns ++ picks i (at (i + length (drop i s.active_conns)) s) =
      picks_through (take i s.active_conns) (drop i s.active_conns) [] i i s
        (sym (ap (◌++◌ (take i s.active_conns)) (append-nil _) ∙ take-append-drop i s.active_conns))
        e before in
    let then_front : picks i (at 0 s) ≡ take i s.active_conns =
      ap (λ k. picks k (at 0 s)) (omega arith)
      ∙ picks_through [] (take i s.active_conns) (drop i s.active_conns) 0 0 (at 0 s)
          (sym (take-append-drop i s.active_conns)) refl refl
      ∙ append-nil (take i s.active_conns) in
    ap (λ k. picks k s) (omega arith)
    ∙ tail_first
    ∙ ap (◌++◌ (drop i s.active_conns)) (
        picks_past_end i (at (i + length (drop i s.active_conns)) s) (omega arith) (omega arith)
        ∙ then_front)

-- As many calls as there are connections return each connection once: the list, rotated to start
-- at the current position (the front, if that lies past the end).
pub picks_round :
    (s : Pool)
    → picks (length s.active_conns) s
      ≡ drop (wrapped s) s.active_conns ++ take (wrapped s) s.active_conns
unfolding picks
picks_round s = elim (Bool-cases (leb (length s.active_conns) s.current_conn_index)) [
  | inl past ↦ rw past (from_front s s.active_conns refl (leb→le _ _ past))
  | inr inside ↦
      rw inside (picks_from s s.current_conn_index refl (omega (arith, leb→lt _ _ inside)))
]
  where
    from_front :
        (s : Pool) (xs : List ℕ)
        → s.active_conns ≡ xs
        → length s.active_conns ≤ s.current_conn_index
        → picks (length s.active_conns) s ≡ s.active_conns ++ []
    from_front s [] e h = rw e
    from_front s (x ∷ xs) e h =
        picks_past_end (length s.active_conns) s (rw e (omega arith)) h
        ∙ picks_from (at 0 s) 0 refl (rw e (omega arith))

-- As many calls of NextBackendConn in a row as there are active connections pick each connection of
-- the list once, wherever the round begins.
pub picks_round-perm : (s : Pool) → Perm (picks (length s.active_conns) s) s.active_conns
picks_round-perm s =
    let w = wrapped s in
    subst (λ l. Perm l s.active_conns) (sym (picks_round s))
      (subst (Perm (drop w s.active_conns ++ take w s.active_conns))
        (take-append-drop w s.active_conns)
        (perm_append_comm (drop w s.active_conns) (take w s.active_conns)))
