-- ===== src/Pool/Examples.antt =====
-- The lists of connections of a proxy and of a load balancer, with connections 4, 8 and 9.
use mathlib.Core.List.{Perm}
use rpc_proxy.Prelude.{
  ℕ, zero, suc, ◌+◌, ◌-◌, ◌<◌, ◌≡◌, refl, true, false, none, some, [], ◌∷◌, update, arith,
  get_elem?, ◌||◌,
}
use rpc_proxy.Pool.{Pool, empty, state_changed, remove_conn, next_backend_conn}
use rpc_proxy.Pool.Invariant.{Inv}
use rpc_proxy.Pool.Stopping.{Roster, InUse, stop_all, stop_all-empties, stop, stop-empties}
use rpc_proxy.Pool.Removal.{member, Updated, state_changed-Updated}
use rpc_proxy.Pool.RoundRobin.{picks, picks_round-perm}
use rpc_proxy.Pool.LoadBalancer
use rpc_proxy.Pool.Dispatching.{
  Service, PushBack, handle_request, dispatch, handle_request-unserved, dispatch-unserved,
  handle_request-served, after_push,
}
use rpc_proxy.Request.{Request, blank, bytes_of}
use rpc_proxy.Exceptions.{Exceptions}
use rpc_proxy.Thrift.Binary.{binary}
use rpc_proxy.Pool.LoadBalancer.Removal.{TakenOut, state_changed-TakenOut}
use rpc_proxy.Pool.LoadBalancer.Stale.{notified_twice_panics, notified_late_evicts}

-- Connections 4 and 8 are in the list; 4 has failed.
abbrev pub pair : Pool
pair = record {
  active_conns = 4 ∷ 8 ∷ [];
  current_conn_index = 1;
  index = update (update (λ _. none) 4 (some 0)) 8 (some 1);
  is_conn_active = update (λ _. true) 4 false;
}

pair-listed : (i c : ℕ) → get_elem? pair.active_conns i ≡ some c → pair.index c ≡ some i
pair-listed zero c h = ground arith
pair-listed (suc zero) c h = ground arith
pair-listed (suc (suc i)) c h = ground arith

pair-placed : (c i : ℕ) → pair.index c ≡ some i → get_elem? pair.active_conns i ≡ some c
pair-placed c i h = ground arith

pub pair-Inv : Inv pair
pair-Inv = record { listed = pair-listed; placed = pair-placed }

failed_conn_leaves : (state_changed 4 pair ≡ none → ⊥) × (picks 3 pair ≡ 8 ∷ 4 ∷ 8 ∷ [])
unfolding state_changed remove_conn picks next_backend_conn
failed_conn_leaves = (λ e. cc, refl)

state_changed-Updated_example : (t : Pool) × (state_changed 4 pair ≡ some t) × Updated 4 pair t
state_changed-Updated_example = state_changed-Updated 4 pair pair-Inv

picks_round-perm_example : Perm (picks 2 pair) (4 ∷ 8 ∷ [])
picks_round-perm_example = picks_round-perm pair

state_changed-TakenOut_example :
    (t : Pool) × (LoadBalancer.state_changed false 4 pair ≡ some t) × TakenOut 4 pair t
state_changed-TakenOut_example = state_changed-TakenOut false 4 0 pair pair-listed refl refl

-- The last connection has failed.
abbrev last_failed : Pool
last_failed = record pair { is_conn_active = update (λ _. true) 8 false }

notified_twice_panics_test :
    (t : Pool) × (LoadBalancer.state_changed true 8 last_failed ≡ some t)
    × (LoadBalancer.state_changed true 8 t ≡ none)
notified_twice_panics_test = notified_twice_panics true 8 last_failed (omega arith, refl, refl)

notified_late_evicts_example :
    (t u : Pool) × (LoadBalancer.state_changed true 8 last_failed ≡ some t)
    × (LoadBalancer.state_changed true 8 (LoadBalancer.accept_conn 9 t) ≡ some u)
    × (u.active_conns ≡ t.active_conns)
    × (u.is_conn_active 9 ≡ true)
notified_late_evicts_example =
    notified_late_evicts true 8 9 last_failed (omega arith, refl, refl) refl refl

abbrev plain : Exceptions
plain = record { write_exception = λ kind msg. kind ∷ msg; show = λ e. [] }

-- A push that counts.
abbrev counting : PushBack ℕ
counting c r d = some (suc d, r)

abbrev asked : Request
asked = record blank { service = b'g' ∷ []; name = b'n' ∷ []; seq_id = 7; wait = some 0 }

abbrev serving : Service ℕ
serving = record { service_name = b'g' ∷ []; pool = pair; last_request_time = 0; conns = 0 }

abbrev deserted : Service ℕ
deserted = record serving { pool = empty (λ _. none) (λ _. true) }

handle_request-unserved_test :
    (q : Request) × (handle_request binary plain counting 50 asked deserted
      ≡ some (record deserted { last_request_time = 50 }, q))
    × (binary.read_message_begin (bytes_of q.response_data)
        ≡ (record { name = b'n' ∷ []; type_id = 3; seq_id = 7 }, none))
    × (q.wait ≡ some 0)
unfolding empty
handle_request-unserved_test =
    handle_request-unserved binary plain counting 50 asked deserted refl
      (omega arith, omega arith, omega arith)

dispatch-unserved_test :
    (q : Request) × (dispatch binary plain counting asked deserted ≡ some (deserted, q))
    × (binary.read_message_begin (bytes_of q.response_data)
        ≡ (record { name = b'n' ∷ []; type_id = 3; seq_id = 7 }, none))
    × (q.wait ≡ some 0)
unfolding empty
dispatch-unserved_test =
    dispatch-unserved binary plain counting asked deserted refl
      (omega arith, omega arith, omega arith)

handle_request-served_test :
    (i c : ℕ) × (d : ℕ) × (q : Request) × (get_elem? (4 ∷ 8 ∷ []) i ≡ some c)
    × (handle_request binary plain counting 50 asked serving
        ≡ some (record (after_push d serving) { last_request_time = 50 }, q))
    × (counting c asked 0 ≡ some (d, q))
handle_request-served_test =
    handle_request-served binary plain counting 50 asked serving (omega arith)
      (λ i c h. (1, asked, refl))

-- Both connections are active.
abbrev both : Roster
both = record { pool = record pair { is_conn_active = λ _. true }; is_mark_offline = λ _. false }

both-InUse : InUse both
both-InUse = record {
  agrees = record { listed = pair-listed; placed = pair-placed };
  active = λ c m. refl;
  online = λ c m. refl;
}

stop_all-empties_test :
    (t : Roster) × (stop_all 3 both ≡ some t)
    × (t.pool.active_conns ≡ [])
    × ((d : ℕ) → t.is_mark_offline d ≡ (member both.pool d || both.is_mark_offline d))
stop_all-empties_test = stop_all-empties both both-InUse

stop-empties_example :
    (i : ℕ) × (t : Roster) × (stop (λ i. 100 + i) (λ _. 102) (λ _. both) 14 ≡ some t)
    × (10 < (100 + i) - 102)
    × (t.pool.active_conns ≡ [])
    × ((d : ℕ) → t.is_mark_offline d ≡ (member both.pool d || both.is_mark_offline d))
stop-empties_example =
    stop-empties (λ i. 100 + i) (λ _. 102) (λ _. both) 100 102 (λ i. omega arith) (λ i. omega arith)
      (λ i. both-InUse)
