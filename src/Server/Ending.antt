-- ===== src/Server/Ending.antt =====
-- The wait of a server for its last requests comes to an end.
use rpc_proxy.Prelude.{ℕ, suc, ◌+◌, ◌-◌, ◌≤◌, ◌<◌, ◌≡◌, some, arith}
use rpc_proxy.Pool.Idle.{wait_idle-returns}
use rpc_proxy.Server.{graceful_exit}

-- The wait for the last requests before a server ends: where a second passes in each round and from
-- some time on no request comes any more, the loop ends, within as many rounds as that time is ahead
-- of its start and seven more; and it ends only when no request came in the last five seconds.
pub graceful_exit-returns :
    (now last : ℕ → ℕ) (start latest : ℕ)
    → ((i : ℕ) → start + i ≤ now i)
    → ((i : ℕ) → last i ≤ latest)
    → (i : ℕ) × (graceful_exit now last (suc (latest + 6 - start)) 0 ≡ some i)
      × (5 < now i - last i)
unfolding graceful_exit
graceful_exit-returns now last start latest clock quiet =
    wait_idle-returns 5 now last start latest (latest + 6 - start) 0 clock quiet (omega arith)
