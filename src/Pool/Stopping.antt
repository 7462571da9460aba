-- ===== src/Pool/Stopping.antt =====
-- BackService.Stop of proxy/backend_service_proxy.go: once no request has come for ten seconds, the
-- connections are marked offline one after the other, until the list is empty.
use rpc_proxy.Prelude.{
  ℕ, zero, suc, ◌+◌, ◌-◌, ◌≡◌, refl, ap, ◌∙◌, Bool, true, false, Option, none, some, List, [], ◌∷◌,
  length, get_elem?, arith, update, if◌then◌else◌, get_elem?_of_lt, get_elem?-lt, ◌==◌, inl, inr,
  ◌⊎◌, ◌<◌, ◌≤◌, ◌||◌, Option-cases, subst, update_self,
}
use rpc_proxy.Pool.{Pool, state_changed}
use rpc_proxy.Pool.Idle.{wait_idle, wait_idle-returns}
use rpc_proxy.Pool.Invariant.{Inv, remove_conn-Removed}
use rpc_proxy.Pool.Removal.{member, is_some, state_changed-Updated}

-- The list, and which connections are marked offline (and their input closed).
pub record Roster : Type 0 where
  pub pool : Pool
  pub is_mark_offline : ℕ → Bool

abbrev pub deactivated : ℕ → Pool → Pool
deactivated c s = record s { is_conn_active = update s.is_conn_active c false }

-- MarkConnActiveFalse of a connection, with the service as the delegate
abbrev pub mark_conn_active_false : ℕ → Pool → Option Pool
mark_conn_active_false c s =
    if s.is_conn_active c then state_changed c (deactivated c s) else some s

-- MarkOffline of a connection
abbrev pub mark_offline : ℕ → Roster → Option Roster
mark_offline c s = if s.is_mark_offline c then some s else elim (mark_conn_active_false c s.pool) [
  | none ↦ none
  | some pool ↦ some (record { pool = pool; is_mark_offline = update s.is_mark_offline c true })
]

-- `for len(s.activeConns) > 0`, with the rounds that are left; `none` is a panic, or that the rounds
-- did not suffice.
unfoldable pub stop_all : ℕ → Roster → Option Roster
stop_all zero s = none
stop_all (suc n) s = elim s.pool.active_conns [
  | [] ↦ some s
  | c ∷ _ ↦ elim (mark_offline c s) [ none ↦ none | some t ↦ stop_all n t ]
]

-- The connections of the list are active and not marked offline.
pub record InUse (s : Roster) : Type 0 where
  pub agrees : Inv s.pool
  pub active : (c : ℕ) → member s.pool c ≡ true → s.pool.is_conn_active c ≡ true
  pub online : (c : ℕ) → member s.pool c ≡ true → s.is_mark_offline c ≡ false

-- A round: the first connection leaves the list, and the others stay in use.
pub record Left (c : ℕ) (s t : Roster) : Type 0 where
  pub in_use : InUse t
  pub fewer : length t.pool.active_conns + 1 ≡ length s.pool.active_conns
  pub members : (d : ℕ) → member t.pool d ≡ (if c == d then false else member s.pool d)
  pub offline : t.is_mark_offline ≡ update s.is_mark_offline c true

shrunk :
    (c : ℕ) (s t : Pool)
    → Inv s
    → get_elem? s.active_conns 0 ≡ some c
    → s.is_conn_active c ≡ false
    → state_changed c s ≡ some t
    → length t.active_conns + 1 ≡ length s.active_conns
unfolding state_changed
shrunk c s t inv front off h =
    let ix = inv.listed 0 c front in
    let (last, at_last) =
      get_elem?_of_lt s.active_conns (length s.active_conns - 1)
        (omega (arith, get_elem?-lt s.active_conns 0 c front)) in
    let (t', removed, r) = remove_conn-Removed c 0 last s front at_last in
    let same : t' ≡ t = ground (arith, h, off, ix, removed) in
    subst (λ (x : Pool). length x.active_conns + 1 ≡ length s.active_conns) same r.fewer

round :
    (c : ℕ) (s : Roster)
    → InUse s
    → get_elem? s.pool.active_conns 0 ≡ some c
    → (t : Roster) × (mark_offline c s ≡ some t) × Left c s t
round c s u front =
    let off = deactivated c s.pool in
    let listed = ap is_some (u.agrees.listed 0 c front) in
    let on = u.active c listed in
    let fresh = u.online c listed in
    let inv : Inv off = record { listed = u.agrees.listed; placed = u.agrees.placed } in
    let (t, changed, v) = state_changed-Updated c off inv in
    (
      record { pool = t; is_mark_offline = update s.is_mark_offline c true },
      ground (arith, fresh, on, changed),
      record {
        in_use = record {
          agrees = v.agrees;
          active = λ d m. ground (arith, v.members d, m, u.active d, ap (λ f. f d) v.same_states);
          online = λ d m. ground (arith, v.members d, m, u.online d);
        };
        fewer = shrunk c off t inv front (update_self s.pool.is_conn_active c false) changed;
        members = λ d. ground (arith, v.members d);
        offline = refl;
      },
    )

first_of : (xs : List ℕ) → (xs ≡ []) ⊎ ((c : ℕ) × (ys : List ℕ) × (xs ≡ c ∷ ys))
first_of [] = inl refl
first_of (c ∷ ys) = inr (c, ys, refl)

nobody : (s : Pool) (d : ℕ) → Inv s → s.active_conns ≡ [] → member s d ≡ false
nobody s d inv empty = elim (Option-cases (s.index d)) [
  | inl absent ↦ ap is_some absent
  | inr (i, ix) ↦ absurd (ground (arith, inv.placed d i ix, ap (λ xs. get_elem? xs i) empty))
]

-- The body of the loop
abbrev resumed : ℕ → Option Roster → Option Roster
resumed n none = none
resumed n (some t) = stop_all n t

abbrev body : ℕ → Roster → List ℕ → Option Roster
body n s [] = some s
body n s (c ∷ _) = resumed n (mark_offline c s)

stopped : (n : ℕ) (s : Roster) → s.pool.active_conns ≡ [] → stop_all (suc n) s ≡ some s
unfolding stop_all
stopped n s empty = ap (body n s) empty

stepped :
    (n c : ℕ) (rest : List ℕ) (s t : Roster)
    → s.pool.active_conns ≡ c ∷ rest
    → mark_offline c s ≡ some t
    → stop_all (suc n) s ≡ stop_all n t
unfolding stop_all
stepped n c rest s t front marked = ap (body n s) front ∙ ap (resumed n) marked

stops :
    (n : ℕ) (s : Roster)
    → InUse s
    → length s.pool.active_conns < n
    → (t : Roster) × (stop_all n s ≡ some t)
      × (t.pool.active_conns ≡ [])
      × ((d : ℕ) → t.is_mark_offline d ≡ (member s.pool d || s.is_mark_offline d))
unfolding stop_all
stops zero s u enough = absurd (omega (arith, enough))
stops (suc n) s u enough = elim (first_of s.pool.active_conns) [
  | inl none_left ↦
      (s, stopped n s none_left, none_left, λ d. ground (arith, nobody s.pool d u.agrees none_left))
  | inr (c, rest, front) ↦
      let at_front : get_elem? s.pool.active_conns 0 ≡ some c = ap (λ xs. get_elem? xs 0) front in
      let (t, marked, l) = round c s u at_front in
      let (z, go, empty, offline) = stops n t l.in_use (omega (arith, l.fewer, enough)) in
      (
        z,
        stepped n c rest s t front marked ∙ go,
        empty,
        λ d. ground (
          arith,
          offline d,
          l.members d,
          ap (λ f. f d) l.offline,
          ap is_some (u.agrees.listed 0 c at_front),
        ),
      )
]

-- The loop of Stop over a list that agrees with the indices of its connections, all of them active and
-- none marked offline: it does not panic and ends within one round for each connection and one more;
-- the list is empty then, and the connections that were in it are marked offline, and no others.
pub stop_all-empties :
    (s : Roster)
    → InUse s
    → (t : Roster) × (stop_all (suc (length s.pool.active_conns)) s ≡ some t)
      × (t.pool.active_conns ≡ [])
      × ((d : ℕ) → t.is_mark_offline d ≡ (member s.pool d || s.is_mark_offline d))
stop_all-empties s u = stops (suc (length s.pool.active_conns)) s u (omega arith)

-- The goroutine of Stop, for a given number of rounds of its wait: the list may change while it waits,
-- and is a function of the round like the clock.
unfoldable pub stop : (ℕ → ℕ) → (ℕ → ℕ) → (ℕ → Roster) → ℕ → Option Roster
stop now last_request_time roster n = elim (wait_idle 10 now last_request_time n 0) [
  | none ↦ none
  | some i ↦ stop_all (suc (length (roster i).pool.active_conns)) (roster i)
]

-- Stop of a service: where a second passes in each round of its wait, no request comes after a time
-- `latest`, and the connections in the list are always active, in agreement with their indices and not
-- marked offline, it ends: at a round in which no request has come for ten seconds it empties the
-- list, and marks offline the connections that were in it, and no others.
pub stop-empties :
    (now last : ℕ → ℕ) (roster : ℕ → Roster) (start latest : ℕ)
    → ((i : ℕ) → start + i ≤ now i)
    → ((i : ℕ) → last i ≤ latest)
    → ((i : ℕ) → InUse (roster i))
    → (i : ℕ) × (t : Roster) × (stop now last roster (suc (latest + 11 - start)) ≡ some t)
      × (10 < now i - last i)
      × (t.pool.active_conns ≡ [])
      × ((d : ℕ) → t.is_mark_offline d ≡ (member (roster i).pool d || (roster i).is_mark_offline d))
unfolding stop
stop-empties now last roster start latest clock quiet u =
    let (i, ended, idle) =
      wait_idle-returns 10 now last start latest (latest + 11 - start) 0 clock quiet
        (omega arith) in
    let (t, go, empty, offline) = stop_all-empties (roster i) (u i) in
    (i, t, ground (arith, ended, go), idle, empty, offline)
