-- ===== src/Session/Pipeline/Examples.antt =====
-- A client's session that reads one frame.
use rpc_proxy.Prelude.{ℕ, ◌≡◌, refl, ap, true, false, Option, some, [], ◌∷◌, ◌++◌, update, arith}
use rpc_proxy.Errors.{Error, eof}
use rpc_proxy.Framing.RoundTrip.{frame, with_input, read_frame-frame}
use rpc_proxy.Framing.Output.{memory, Memory}
use rpc_proxy.Thrift.Binary.{binary}
use rpc_proxy.Request.{Request, blank}
use rpc_proxy.Session.{Session, handle_request}
use rpc_proxy.Session.Examples.{quiet_client, counting, plain}
use rpc_proxy.Session.Pipeline.{Pipeline, received, read, answer, Reach, here, next}
use rpc_proxy.Session.Pipeline.Order.{upto, serve_in_order}

abbrev client : Session Memory
client = record quiet_client {
  transport = with_input quiet_client.transport (frame (5 ∷ []) ++ []) eof;
}

abbrev begun : Pipeline Memory ℕ
begun = record {
  session = client;
  dispatcher = 0;
  requests = λ _. blank;
  next = 0;
  reading = true;
  tasks = [];
  tasks_closed = false;
  writing = true;
  written = [];
  dropped = [];
}

abbrev outcome : Session Memory × (ℕ × Request × Option Error)
outcome = handle_request binary counting 60 (5 ∷ []) (received client) 0

abbrev one_task : Pipeline Memory ℕ
one_task = record begun {
  session = outcome.0;
  dispatcher = outcome.1.0;
  requests = update begun.requests 0 outcome.1.1;
  next = 1;
  tasks = 0 ∷ [];
}

abbrev one_answer : Pipeline Memory ℕ
one_answer = record one_task { requests = λ _. record blank { response_data = some (1 ∷ []) } }

steps : Reach binary plain memory counting 8 begun one_answer
unfolding handle_request
steps =
    next
      (next here (
        read 60 refl
          (ap (λ a. a.0)
            (read_frame-frame quiet_client.transport (5 ∷ []) [] eof refl (omega arith)
              (omega arith)))
          refl (omega arith) refl))
      (answer one_answer.requests)

serve_in_order_example : (one_answer.written ++ one_answer.dropped) ++ one_answer.tasks ≡ upto 1
serve_in_order_example =
    serve_in_order binary plain memory counting 8 begun one_answer
      (record { no_frame = refl; nothing = (refl, refl, refl) }) steps
