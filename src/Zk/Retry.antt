-- ===== src/Zk/Retry.antt =====
-- What the methods of safeConn give their callers.
use rpc_proxy.Prelude.{
  ℕ, zero, suc, ◌+◌, ◌<◌, ◌≡◌, refl, true, false, Option, none, some, arith, Option-cases,
  Bool-cases, inl, inr, ◌⊎◌, subst, sym,
}
use rpc_proxy.Zk.{
  Client, ConnBuilder, Reply, value, error, Outcome, answered, refused, fatal, panic,
  is_connection_error, reset_connection, retry, safe_call, recent, installed, close_old,
}

Reply-cases : {V E : Type 0} (x : Reply V E) → ((v : V) × (x ≡ value v)) ⊎ ((e : E) × (x ≡ error e))
Reply-cases (value v) = inl (v, refl)
Reply-cases (error e) = inr (e, refl)

module _ {W C Op V E : Type 0} (k : Client W C Op V E) where
  open k use {call, build, close, now}

  -- Both instances stand on the builder's connection, and there is one.
  abbrev pub Ready : ConnBuilder C → Type 0
  Ready b = (c : C) × (b.connection ≡ some c) × (b.safe_conn ≡ some c) × (b.unsafe_conn ≡ some c)

  installed-Ready :
      (b b' : ConnBuilder C) (a : W × Option C) → (installed k b a).1 ≡ some b' → Ready b'
  installed-Ready b b' (w, none) h = cc
  installed-Ready b b' (w, some c) h = (c, ground arith, ground arith, ground arith)

  -- resetConnection leaves the instances on one connection, whether it opens a new one or comes too
  -- early for that.
  pub reset_connection-Ready :
      (b b' : ConnBuilder C) (w : W) → Ready b → (reset_connection k b w).1 ≡ some b' → Ready b'
  unfolding reset_connection
  reset_connection-Ready b b' w s h = elim (Bool-cases b.has_builder) [
    | inl built ↦ elim (Bool-cases (recent (now w) b.created_on)) [
      | inl early ↦ ground (arith, s)
      | inr late ↦ installed-Ready b b' (build (close_old k b.connection w)) (ground arith)
    ]
    | inr missing ↦ ground arith
  ]

  -- No panic, and no connection error.
  abbrev pub IsGoodOutcome : Outcome V E → Type 0
  IsGoodOutcome (answered v) = Unit {0}
  IsGoodOutcome (refused e) = is_connection_error k e ≡ false
  IsGoodOutcome fatal = Unit {0}
  IsGoodOutcome panic = ⊥

  -- How a method of safeConn ends.
  abbrev pub IsGood : W × ConnBuilder C × Outcome V E → Type 0
  IsGood (w, b, o) = Ready b × IsGoodOutcome o

  retry-IsGood : (n : ℕ) (op : Op) (b : ConnBuilder C) (w : W) → Ready b → IsGood (retry k n op b w)
  unfolding retry
  retry-IsGood zero op b w s = (s, tt)
  retry-IsGood (suc n) op b w (c, here, safe, unsafe) =
      let s : Ready b = (c, here, safe, unsafe) in
      let w' = (call op c w).0 in
      elim (Reply-cases (call op c w).1) [
        | inl (v, r) ↦
            let step : retry k (suc n) op b w ≡ (w', b, answered v) = ground (arith, safe, r) in
            subst IsGood (sym step) (s, tt)
        | inr (e, r) ↦ elim (Bool-cases (is_connection_error k e)) [
          | inl down ↦ elim (Option-cases (reset_connection k b w').1) [
            | inl dead ↦
                let step : retry k (suc n) op b w ≡ ((reset_connection k b w').0, b, fatal) =
                  ground (arith, safe, r, down, dead) in
                subst IsGood (sym step) (s, tt)
            | inr (b', up) ↦
                let step : retry k (suc n) op b w ≡ retry k n op b' (reset_connection k b w').0 =
                  ground (arith, safe, r, down, up) in
                subst IsGood (sym step) (
                  retry-IsGood n op b' (reset_connection k b w').0
                    (reset_connection-Ready b b' w' s up))
          ]
          | inr fine ↦
              let step : retry k (suc n) op b w ≡ (w', b, refused e) =
                ground (arith, safe, r, fine) in
              subst IsGood (sym step) (s, fine)
        ]
      ]

  -- A method of safeConn, where both instances stand on the builder's connection: it never calls a
  -- nil connection, both instances still stand on the builder's connection afterwards, and an error
  -- that the caller gets is no connection error; otherwise it ends with an answer or ends the
  -- program.
  pub safe_call-IsGood :
      (op : Op) (b : ConnBuilder C) (w : W) → Ready b → IsGood (safe_call k op b w)
  unfolding safe_call
  safe_call-IsGood op b w s = retry-IsGood 11 op b w s

  -- A resetConnection that is not too early and whose builder opens a connection puts both
  -- instances on it, and a second one less than a second later changes nothing.
  pub reset_connection_early :
      (b : ConnBuilder C) (w w' later : W) (c : C)
      → b.has_builder ≡ true
      → recent (now w) b.created_on ≡ false
      → build (close_old k b.connection w) ≡ (w', some c)
      → now later < now w' + 1_000_000_000
      → (b' : ConnBuilder C) × (reset_connection k b w ≡ (w', some b'))
        × Ready b'
        × (reset_connection k b' later ≡ (later, some b'))
  unfolding reset_connection
  reset_connection_early b w w' later c has late built lt =
      let b' = record b {
        connection = some c;
        safe_conn = some c;
        unsafe_conn = some c;
        created_on = some (now w');
      } in
      (b', rw (has, late, built, reset_connection) refl, (c, refl, refl, refl), ground (arith, has))
