-- ===== src/Conn/SeqId.antt =====
-- IncreaseCurrentSeqId runs through 1, …, 100000 and starts again.
use rpc_proxy.Prelude.{ℕ, zero, suc, ◌+◌, ◌-◌, ◌%◌, ◌≤◌, ◌<◌, ◌≡◌, ◌≢◌, arith}
use rpc_proxy.Conn.{increase, backend_conn_max_seq_id}

abbrev pub InRange : ℕ → Type 0
InRange seq = (1 ≤ seq) × (seq ≤ backend_conn_max_seq_id)

-- The number after n requests.
abbrev pub after : ℕ → ℕ → ℕ
after zero seq = seq
after (suc n) seq = increase (after n seq)

pub increase-InRange : (seq : ℕ) → InRange seq → InRange (increase seq)
unfolding increase
increase-InRange seq h = ground arith

after-InRange : (n seq : ℕ) → InRange seq → InRange (after n seq)
after-InRange zero seq h = h
after-InRange (suc n) seq h = increase-InRange (after n seq) (after-InRange n seq h)

increase_mod : (seq : ℕ) → InRange seq → increase seq ≡ 1 + (seq - 1 + 1) % 100_000
unfolding increase
increase_mod seq h = ground arith

after_mod : (n seq : ℕ) → InRange seq → after n seq ≡ 1 + (seq - 1 + n) % 100_000
after_mod zero seq h = omega arith
after_mod (suc n) seq h =
    omega (arith, increase_mod (after n seq) (after-InRange n seq h), after_mod n seq h)

-- The numbers stay in 1, …, 100000, and of 100000 requests in a row no two have the same number.
pub after_distinct :
    (m n seq : ℕ)
    → InRange seq
    → m < n
    → n < m + 100_000
    → InRange (after n seq) × (after m seq ≢ after n seq)
after_distinct m n seq h lt near =
    (after-InRange n seq h, omega (arith, after_mod m seq h, after_mod n seq h))
