-- ===== src/Pool/Idle.antt =====
-- The wait for the last requests, of BackService.Stop (proxy/backend_service_proxy.go) and of a server
-- before it ends (proxy/server_general_rpc.go, proxy/server_lb.go): a look at the clock each second.
use rpc_proxy.Prelude.{
  ℕ, zero, suc, ◌+◌, ◌-◌, ◌≤◌, ◌<◌, ◌≡◌, refl, Option, none, some, arith, ltb, Bool-cases, inl, inr,
  ltb→lt, if◌then◌else◌,
}

-- The loop, with its limit in seconds, the rounds that are left and the number of this one: the clock
-- and the time of the last request, in seconds, are functions of the round. `none` is that the rounds
-- did not suffice.
unfoldable pub wait_idle : ℕ → (ℕ → ℕ) → (ℕ → ℕ) → ℕ → ℕ → Option ℕ
wait_idle limit now last_request_time zero i = none
wait_idle limit now last_request_time (suc n) i =
    let rest = wait_idle limit now last_request_time n (suc i) in
    if ltb limit (now i - last_request_time i) then some i else rest

-- Where a second passes in each round from `start` on and no request comes after `latest`: it ends within
-- as many rounds as `latest + limit` is ahead of `start` and two more, and only when no request came in
-- the last `limit` seconds.
pub wait_idle-returns :
    (limit : ℕ) (now last : ℕ → ℕ) (start latest n i : ℕ)
    → ((j : ℕ) → start + j ≤ now j)
    → ((j : ℕ) → last j ≤ latest)
    → latest + limit + 1 ≤ start + i + n
    → (j : ℕ) × (wait_idle limit now last (suc n) i ≡ some j) × (limit < now j - last j)
unfolding wait_idle
wait_idle-returns limit now last start latest zero i clock quiet enough =
    let idle : limit < now i - last i = omega (arith, clock i, quiet i) in
    (i, ground (arith, idle), idle)
wait_idle-returns limit now last start latest (suc n) i clock quiet enough =
    elim (Bool-cases (ltb limit (now i - last i))) [
      | inl idle ↦ (i, rw idle refl, ltb→lt limit (now i - last i) idle)
      | inr busy ↦
          let (j, go, done) =
            wait_idle-returns limit now last start latest n (suc i) clock quiet (omega arith) in
          (j, rw busy go, done)
    ]
