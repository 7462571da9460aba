-- ===== src/Conn/Fleet/Examples.antt =====
-- A service with one connection, to which request 3 goes.
use rpc_proxy.Prelude.{ℕ, ◌≡◌, refl, some, [], ◌∷◌, arith, get_elem?}
use rpc_proxy.Framing.Output.{Memory}
use rpc_proxy.Thrift.Binary.{binary}
use rpc_proxy.Exceptions.{Exceptions}
use rpc_proxy.Request.{Request}
use rpc_proxy.Pool.Dispatching.{Service, after_push, handle_request, dispatch}
use rpc_proxy.Conn.Examples.{busy, one_worker, waited, memory_of}
use rpc_proxy.Conn.Fleet.{
  Fleet, AllReady, Enqueued, push_proxy, push_lb, handle_request-Enqueued, dispatch-Enqueued,
}

abbrev plain : Exceptions
plain = record { write_exception = λ kind msg. kind ∷ msg; show = λ e. [] }

abbrev fleet : Fleet Memory
fleet = record { requests = memory_of; conns = λ _. busy }

abbrev service : Service (Fleet Memory)
service = record {
  service_name = b'g' ∷ [];
  pool = one_worker;
  last_request_time = 0;
  conns = fleet;
}

service-AllReady : AllReady service
service-AllReady i c h = (refl, omega arith)

handle_request-Enqueued_example :
    (i c : ℕ) × (d : Fleet Memory) × (q : Request) × (get_elem? (8 ∷ []) i ≡ some c)
    × (handle_request binary plain (push_proxy 3) 50 waited service
        ≡ some (record (after_push d service) { last_request_time = 50 }, q))
    × Enqueued 3 c waited fleet d
handle_request-Enqueued_example =
    handle_request-Enqueued binary plain 50 3 waited service (omega arith) service-AllReady

dispatch-Enqueued_test :
    (i c : ℕ) × (d : Fleet Memory) × (q : Request) × (get_elem? (8 ∷ []) i ≡ some c)
    × (dispatch binary plain (push_lb 3) waited service ≡ some (after_push d service, q))
    × Enqueued 3 c waited fleet d
dispatch-Enqueued_test =
    dispatch-Enqueued binary plain 3 waited service (omega arith) service-AllReady
