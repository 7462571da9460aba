-- ===== src/Stats/Examples.antt =====
-- Three calls of two operations.
use rpc_proxy.Prelude.{ℕ, ◌≡◌, List, [], ◌∷◌, find, arith}
use rpc_proxy.Stats.{CmdStats}
use rpc_proxy.Stats.Counting.{incr_each, calls_of, incr_each-counts}

abbrev get : List ℕ
get = b'g' ∷ []

abbrev set_op : List ℕ
set_op = b's' ∷ []

abbrev started : CmdStats
started = record { requests = 0; opmap = [] }

abbrev ops : List (List ℕ × ℕ)
ops = (get, 30) ∷ (set_op, 40) ∷ (get, 50) ∷ []

incr_each-counts_test :
    ((incr_each ops started).requests ≡ 3) × (calls_of (find get (incr_each ops started).opmap) ≡ 2)
unfolding find
incr_each-counts_test = incr_each-counts ops get started (omega arith) (omega arith)
