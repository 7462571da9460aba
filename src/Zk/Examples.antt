-- ===== src/Zk/Examples.antt =====
-- A client whose first connection is broken: connection 0 refuses, connection 1 answers.
use rpc_proxy.Prelude.{ℕ, ◌+◌, ◌≡◌, refl, true, none, some, arith, ◌==◌, if◌then◌else◌}
use rpc_proxy.Zk.{
  Client, ConnBuilder, value, error, answered, refused, safe_call, retry, reset_connection,
  is_connection_error, unsafe_call,
}
use rpc_proxy.Zk.Retry.{Ready, IsGood, safe_call-IsGood, reset_connection_early}

-- The world is the clock; a new connection is named 1. Error 3 is a lost connection.
abbrev flaky : Client ℕ ℕ ℕ ℕ ℕ
flaky = record {
  err_no_node = 0;
  err_node_exists = 1;
  err_not_empty = 2;
  zk_error_equal = λ a b. a == b;
  call = λ op c w. (w + 1, if c == 0 then error 3 else value op);
  build = λ w. (w + 1, some 1);
  close = λ c w. w;
  now = λ w. w;
}

abbrev broken : ConnBuilder ℕ
broken = record {
  has_builder = true;
  connection = some 0;
  created_on = none;
  safe_conn = some 0;
  unsafe_conn = some 0;
}

recovers : (safe_call flaky 42 broken 5).2 ≡ answered 42
unfolding safe_call retry reset_connection is_connection_error
recovers = refl

reports : unsafe_call flaky 42 broken 5 ≡ (6, (refused 3, true))
unfolding unsafe_call is_connection_error
reports = refl

safe_call-IsGood_example : IsGood flaky (safe_call flaky 42 broken 5)
safe_call-IsGood_example = safe_call-IsGood flaky 42 broken 5 (0, refl, refl, refl)

reset_connection_early_test :
    (b' : ConnBuilder ℕ) × (reset_connection flaky broken 5 ≡ (6, some b'))
    × Ready flaky b'
    × (reset_connection flaky b' 900_000_000 ≡ (900_000_000, some b'))
reset_connection_early_test =
    reset_connection_early flaky broken 5 6 900_000_000 1 refl refl refl (omega arith)
