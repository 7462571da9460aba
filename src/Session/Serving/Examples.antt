-- ===== src/Session/Serving/Examples.antt =====
-- A session that reads one frame and then the end of the connection.
use rpc_proxy.Prelude.{
  ℕ, ◌≡◌, refl, ap, ◌++◌, Option, false, true, ◌⊎◌, [], ◌∷◌, ltb, if◌then◌else◌, update, arith,
}
use rpc_proxy.Errors.{Error, eof}
use rpc_proxy.Framing.{read_frame}
use rpc_proxy.Framing.RoundTrip.{frame, with_input, read_frame-frame}
use rpc_proxy.Framing.Output.{memory, Memory}
use rpc_proxy.Thrift.Binary.{binary}
use rpc_proxy.Request.{Request, blank}
use rpc_proxy.Session.{Session, handle_request_nonblock}
use rpc_proxy.Session.Examples.{quiet_client, counting, plain}
use rpc_proxy.Session.Serving.{Serving, Step, read, handle, hand_over, Reach, here, next}
use rpc_proxy.Session.Serving.Once.{stands, Starting, serve_once}

abbrev client : Session Memory
client = record quiet_client {
  transport = with_input quiet_client.transport (frame (5 ∷ []) ++ []) eof;
}

abbrev begun : Serving Memory ℕ
begun = record {
  session = client;
  dispatcher = 0;
  frames = λ _. [];
  requests = λ _. blank;
  next = 0;
  reading = true;
  started = [];
  handled = [];
  leaving = 0;
  wait = 0;
  tasks = [];
  tasks_closed = false;
  writing = true;
  written = [];
  dropped = [];
}

begun-Starting : Starting begun
begun-Starting = record {
  no_frame = refl;
  nobody = (refl, refl, refl, refl);
  nothing = (refl, refl, refl);
  opened = refl;
}

abbrev one_read : Serving Memory ℕ
one_read = record begun {
  session = record client { transport = (read_frame client.transport).1 };
  frames = update begun.frames 0 (5 ∷ []);
  next = 1;
  started = 0 ∷ [];
  wait = 1;
}

read_one : Step binary plain memory counting 8 begun one_read
read_one = read refl (
    ap (λ a. a.0)
      (read_frame-frame quiet_client.transport (5 ∷ []) [] eof refl (omega arith) (omega arith)))

abbrev outcome : Session Memory × (ℕ × Request × Option Error)
outcome = handle_request_nonblock binary counting 60 (5 ∷ []) one_read.session 0

abbrev one_handled : Serving Memory ℕ
one_handled = record one_read {
  session = outcome.0;
  dispatcher = outcome.1.0;
  requests = update one_read.requests 0 outcome.1.1;
  started = [];
  handled = 0 ∷ [];
}

abbrev one_task : Serving Memory ℕ
one_task = record one_handled { handled = []; tasks = 0 ∷ []; leaving = 1 }

steps : Reach binary plain memory counting 8 begun one_task
steps =
    next (next (next here read_one) (handle 60 0 [] [] refl refl))
      (hand_over 0 [] [] refl (omega arith) refl)

serve_once_example :
    (stands 0 one_task ≡ (if ltb 0 one_task.next then 1 else 0))
    × ((one_task.tasks_closed ≡ false) ⊎ ((one_task.started ≡ []) × (one_task.handled ≡ [])))
serve_once_example = serve_once binary plain memory counting 8 begun one_task 0 begun-Starting steps
