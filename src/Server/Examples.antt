-- ===== src/Server/Examples.antt =====
-- A server at 127.0.0.1:5555 that echoes its requests.
use rpc_proxy.Prelude.{
  ℕ, ◌+◌, ◌-◌, ◌≤◌, ◌<◌, ◌≡◌, refl, ◌≢◌, zero, suc, get_elem?, true, none, some, List, [], ◌∷◌,
  arith, length, if◌then◌else◌, leb,
}
use rpc_proxy.Buffers.{Slice, Buffers}
use rpc_proxy.Server.{Processor, dispatch, get_service_identity, graceful_exit}
use rpc_proxy.Server.Identity.{Clean, get_service_identity-Clean}
use rpc_proxy.Server.Ending.{graceful_exit-returns}
use rpc_proxy.Server.Accepting.{
  Sockets, run_general, run_lb, run_proxy, run_general-sessions, run_lb-panics,
}
use rpc_proxy.Pool.{Pool, empty}
use rpc_proxy.Server.Workers.{AreWorkers, AllWork, calm, run_workers, run_workers-AllWork}
use rpc_proxy.Server.Reuse.{InPlace, dispatch_shares}

abbrev address : List ℕ
address = b'1' ∷ b'2' ∷ b'7' ∷ b'.' ∷ b'0' ∷ b'.' ∷ b'0' ∷ b'.' ∷ b'1' ∷ b':' ∷ b'5' ∷ b'5' ∷ []

run_identity :
    get_service_identity address
    ≡ b'1' ∷ b'2' ∷ b'7' ∷ b'_' ∷ b'0' ∷ b'_' ∷ b'0' ∷ b'_' ∷ b'1' ∷ b'_' ∷ b'5' ∷ b'5' ∷ []
unfolding get_service_identity
run_identity = refl

get_service_identity-Clean_test :
    Clean (get_service_identity address)
    × (length (get_service_identity address) ≤ 20)
    × (get_service_identity (get_service_identity address) ≡ get_service_identity address)
get_service_identity-Clean_test = get_service_identity-Clean address

-- What fits is written in place, and the rest to a new slice of twice the size.
abbrev echo : Processor
echo = record {
  process = λ request. request;
  bytes = λ b answer s.
      if leb (b.len + length answer) b.cap then (s, record b { len = b.len + length answer }) else (
        record s { next_address = s.next_address + 1 },
        record {
          address = s.next_address;
          len = b.len + length answer;
          cap = b.cap + b.cap + length answer;
        },
      );
}

echo-InPlace : InPlace echo
echo-InPlace b answer s fits = ground (arith, fits)

abbrev unused : Buffers
unused = record { memory_buffer_1024 = []; memory_buffer_2048 = []; next_address = 40 }

dispatch_shares_example :
    (t u : Buffers) × (d d' : Slice) × (dispatch echo (1 ∷ 2 ∷ []) unused ≡ some (t, d))
    × (dispatch echo (3 ∷ []) t ≡ some (u, d'))
    × (d'.address ≡ d.address)
dispatch_shares_example =
    dispatch_shares echo (1 ∷ 2 ∷ []) (3 ∷ []) unused echo-InPlace (omega arith) (omega arith) refl

graceful_exit-returns_test :
    (i : ℕ) × (graceful_exit (λ i. 100 + i) (λ _. 102) 9 0 ≡ some i) × (5 < (100 + i) - 102)
graceful_exit-returns_test =
    graceful_exit-returns (λ i. 100 + i) (λ _. 102) 100 102 (λ i. omega arith) (λ i. omega arith)

-- Two connections come, one of them without an address.
abbrev sockets : Sockets
sockets = record {
  new_server = λ _ _. none;
  listen = λ _ _. none;
  accept =
      record { transport = 3; addr = some (b'x' ∷ []) }
      ∷ record { transport = 4; addr = none }
      ∷ [];
}

abbrev unknow : List ℕ
unknow = b'u' ∷ b'n' ∷ b'k' ∷ b'n' ∷ b'o' ∷ b'w' ∷ []

run_general-sessions_example :
    (run_general sockets address ≡ some ((3, b'x' ∷ []) ∷ (4, unknow) ∷ []))
    × (run_proxy sockets address ≡ some ((3, b'x' ∷ []) ∷ (4, unknow) ∷ []))
run_general-sessions_example = run_general-sessions sockets address refl refl

run_lb-panics_example : run_lb sockets address ≡ none
run_lb-panics_example = run_lb-panics sockets address

-- Two workers connect to a load balancer.
abbrev two_workers : Sockets
two_workers = record sockets {
  accept =
      record { transport = 3; addr = some (b'x' ∷ []) }
      ∷ record { transport = 4; addr = some (b'y' ∷ []) }
      ∷ [];
}

two_workers-AreWorkers : AreWorkers [] two_workers.accept
two_workers-AreWorkers =
    ((b'x' ∷ [], refl), λ j h. ground (arith, h), ((b'y' ∷ [], refl), λ j h. not_four j h, tt))
  where
    not_four : (j : ℕ) → get_elem? {A = ℕ} (3 ∷ []) j ≢ some 4
    not_four zero h = ground (arith, h)
    not_four (suc j) h = ground (arith, h)

run_workers-AllWork_test :
    (t : Pool) × (run_workers true calm two_workers address (empty (λ _. none) (λ _. true))
      ≡ some t)
    × (t.active_conns ≡ 3 ∷ 4 ∷ [])
    × AllWork t
run_workers-AllWork_test =
    run_workers-AllWork true two_workers address (λ _. none) (λ _. true) refl refl
      two_workers-AreWorkers
