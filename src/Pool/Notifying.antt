-- ===== src/Pool/Notifying.antt =====
-- MarkConnActiveFalse and MarkConnActiveOK of proxy/backend_conn_proxy.go, as the goroutines of all
-- connections of a service run them: only StateChanged and NextBackendConn hold `activeConnsLock`.
-- Between the test of IsConnActive, its Set and the call of StateChanged anything may happen, also
-- in another goroutine of the same connection (loopReader and Run).
mod Examples
use rpc_proxy.Prelude.{
  ℕ, zero, suc, ◌+◌, ◌≡◌, refl, sym, ap, ◌∙◌, subst, Bool, true, false, Option, none, some, arith,
  ◌==◌, update, length, get_elem?, if◌then◌else◌, inl, inr, Bool-cases, Option-cases, ==_iff,
}
use rpc_proxy.Pool.{Pool, state_changed, next_backend_conn, wrapped}
use rpc_proxy.Pool.Invariant.{Inv}
use rpc_proxy.Pool.Removal.{member, Updated, state_changed-Updated}

pub record Notifying : Type 0 where
  pub pool : Pool
  -- goroutines of a connection that found it active, and have not set it inactive yet
  pub tested : ℕ → ℕ
  -- goroutines of a connection that have set IsConnActive, and have not called StateChanged yet
  pub owed : ℕ → ℕ

-- IsConnActive.Set
abbrev pub with_active : ℕ → Bool → Pool → Pool
with_active c b s = record s { is_conn_active = update s.is_conn_active c b }

pub data Step (s : Notifying) : Notifying → Type 0 where
  -- bc.IsConnActive.Get() of MarkConnActiveFalse answers true.
  test :
      (c : ℕ)
      → s.pool.is_conn_active c ≡ true
      → Step s (record s { tested = update s.tested c (suc (s.tested c)) })
  -- bc.IsConnActive.Set(false) behind it
  clear :
      (c n : ℕ)
      → s.tested c ≡ suc n
      → Step s (record {
        pool = with_active c false s.pool;
        tested = update s.tested c n;
        owed = update s.owed c (suc (s.owed c));
      })
  -- bc.IsConnActive.Set(true) of MarkConnActiveOK
  revive :
      (c : ℕ)
      → Step s
          (record s { pool = with_active c true s.pool; owed = update s.owed c (suc (s.owed c)) })
  -- bc.delegate.StateChanged(bc) of both
  notify :
      {t : Pool} (c n : ℕ)
      → s.owed c ≡ suc n
      → state_changed c s.pool ≡ some t
      → Step s (record s { pool = t; owed = update s.owed c n })
  -- NextBackendConn for a request
  pick :
      {t : Pool} (c : Option ℕ)
      → next_backend_conn s.pool ≡ some (c, t)
      → Step s (record s { pool = t })

pub data Reach (s : Notifying) : Notifying → Type 0 where
  here : Reach s s
  next : {t u : Notifying} → Reach s t → Step t u → Reach s u

-- List and indices agree, and a connection for which no notification is owed is in the list exactly if
-- it is active.
pub record Sound (s : Notifying) : Type 0 where
  pub agrees : Inv s.pool
  pub settled : (c : ℕ) → s.owed c ≡ 0 → member s.pool c ≡ s.pool.is_conn_active c

set-Sound :
    (c : ℕ) (b : Bool) (tested : ℕ → ℕ) (s : Notifying)
    → Sound s
    → Sound (record {
      pool = with_active c b s.pool;
      tested = tested;
      owed = update s.owed c (suc (s.owed c));
    })
set-Sound c b tested s i = record {
  agrees = record { listed = i.agrees.listed; placed = i.agrees.placed };
  settled = λ d h. ground (arith, i.settled d);
}

notify-Sound :
    (c n : ℕ) (s : Notifying) (t : Pool)
    → Sound s
    → state_changed c s.pool ≡ some t
    → Sound (record s { pool = t; owed = update s.owed c n })
notify-Sound c n s t i h =
    let (u, done, up) = state_changed-Updated c s.pool i.agrees in
    let same : u ≡ t = ground (arith, done, h) in
    subst (λ x. Sound (record s { pool = x; owed = update s.owed c n })) same
      (record {
        agrees = up.agrees;
        settled = λ d e. ground (arith, up.members d, up.same_states, i.settled d);
      })

next_same :
    (s t : Pool) (c : Option ℕ)
    → next_backend_conn s ≡ some (c, t)
    → (n : ℕ) × (record s { current_conn_index = n } ≡ t)
unfolding next_backend_conn
next_same s t c h = elim (Bool-cases (length s.active_conns == 0)) [
  | inl none_left ↦ (s.current_conn_index, ground (arith, h))
  | inr some_left ↦ elim (Option-cases (get_elem? s.active_conns (wrapped s))) [
    | inl outside ↦ absurd (ground (arith, h))
    | inr (d, e) ↦ (wrapped s + 1, ground (arith, h))
  ]
]

pick-Sound :
    (s : Notifying) (t : Pool) (c : Option ℕ)
    → Sound s
    → next_backend_conn s.pool ≡ some (c, t)
    → Sound (record s { pool = t })
pick-Sound s t c i h =
    let (n, same) = next_same s.pool t c h in
    subst (λ x. Sound (record s { pool = x })) same
      (record {
        agrees = record { listed = i.agrees.listed; placed = i.agrees.placed };
        settled = i.settled;
      })

step-Sound : (s t : Notifying) → Sound s → Step s t → Sound t
step-Sound s t i (test c on) = record { agrees = i.agrees; settled = i.settled }
step-Sound s t i (clear c n e) = set-Sound c false _ s i
step-Sound s t i (revive c) = set-Sound c true _ s i
step-Sound s t i (notify {t = u} c n e h) = notify-Sound c n s u i h
step-Sound s t i (pick {t = u} c h) = pick-Sound s u c i h

reach-Sound : (s t : Notifying) → Sound s → Reach s t → Sound t
reach-Sound s t i here = i
reach-Sound s t i (next {t = m} before step) = step-Sound m t (reach-Sound s m i before) step

-- However the goroutines of all connections of a service interleave, from a state in which list and
-- indices agree and every connection without an owed notification is in the list exactly if it is
-- active: StateChanged panics for no connection, and a connection for which no notification is owed
-- is in the list exactly if it is active.
pub all_settled :
    (s t : Notifying) (c d : ℕ)
    → Sound s
    → Reach s t
    → t.owed c ≡ 0
    → (member t.pool c ≡ t.pool.is_conn_active c) × (u : Pool) × (state_changed d t.pool ≡ some u)
all_settled s t c d i r quiet =
    let j = reach-Sound s t i r in
    let (u, done, _) = state_changed-Updated d t.pool j.agrees in (j.settled c quiet, u, done)

picked_listed :
    (s t : Pool) (c : ℕ) → Inv s → next_backend_conn s ≡ some (some c, t) → member s c ≡ true
unfolding next_backend_conn
picked_listed s t c i h = elim (Bool-cases (length s.active_conns == 0)) [
  | inl none_left ↦ absurd (ground (arith, h))
  | inr some_left ↦ elim (Option-cases (get_elem? s.active_conns (wrapped s))) [
    | inl outside ↦ absurd (ground (arith, h))
    | inr (d, e) ↦ ground (arith, h, i.listed (wrapped s) d)
  ]
]

-- However the goroutines interleave, from such a state: the connection that NextBackendConn chooses for
-- a request is active, unless a notification about that very connection is still owed.
pub picks_active :
    (s t : Notifying) (c : ℕ) (u : Pool)
    → Sound s
    → Reach s t
    → next_backend_conn t.pool ≡ some (some c, u)
    → t.owed c ≡ 0
    → t.pool.is_conn_active c ≡ true
picks_active s t c u i r h quiet =
    let j = reach-Sound s t i r in sym (j.settled c quiet) ∙ picked_listed t.pool u c j.agrees h
