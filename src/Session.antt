-- ===== src/Session.antt =====
-- proxy/session_proxy.go (Session) and proxy/session_nonblock.go (NonBlockSession): a client's
-- connection to the proxy, and a proxy's connection to the load balancer. Frames come in, requests
-- go to the dispatcher and into the channel `tasks`, and their answers go out in that order.
-- The dispatcher is an argument: it acts on a state `D` of its own and on the request. `none` is a
-- wait that does not end, or a panic. The statistics and the logs are not modelled; Recycle,
-- which hands the slices of a request that has been answered to the pool, stands in Buffers/Recycling.
pub mod Order
pub mod Answers
pub mod Serving
pub mod Pipeline
mod Examples
use rpc_proxy.Prelude.{
  ℕ, zero, suc, ◌+◌, Bool, true, false, Option, none, some, List, [], ◌∷◌, ◌++◌, ◌==◌,
  if◌then◌else◌,
}
use rpc_proxy.Errors.{Error, Result, ok, err}
use rpc_proxy.Framing.{Transport, read_frame, write, flush_buffer}
use rpc_proxy.Framing.Output.{Sink}
use rpc_proxy.Thrift.{Protocol, message_type_heart_beat}
use rpc_proxy.Request.{Request, bytes_of, new_request, handle_ping_request}
use rpc_proxy.Exceptions.{Exceptions, get_thrift_exception}

pub record Session (W : Type 0) : Type 0 where
  pub transport : Transport W
  pub ops : ℕ
  pub last_op_unix : ℕ
  -- of a NonBlockSession: the time that the server shares with it, where there is one
  pub last_request_time : Option ℕ

-- d.Dispatch(r)
abbrev pub Dispatcher : Type 0 → Type 0
Dispatcher D = Request → D → D × Request × Option Error

-- s.lastRequestTime.Set(now), where the pointer is not nil
abbrev touch : ℕ → Option ℕ → Option ℕ
touch now none = none
touch now (some _) = some now

module _ (p : Protocol) {W D : Type 0} (dispatch : Dispatcher D) where
  -- Session.handleRequest
  unfoldable pub handle_request :
      ℕ → List ℕ → Session W → D → Session W × (D × Request × Option Error)
  handle_request unix bytes s d =
      (record s { ops = s.ops + 1; last_op_unix = unix }, dispatch (new_request p bytes true) d)

  -- NonBlockSession.handleRequest: a heartbeat is answered at once.
  unfoldable pub handle_request_nonblock :
      ℕ → List ℕ → Session W → D → Session W × (D × Request × Option Error)
  handle_request_nonblock unix bytes s d =
      let r = new_request p bytes false in
      if r.type_id == message_type_heart_beat then (s, (d, handle_ping_request r, none)) else (
        record s {
          ops = s.ops + 1;
          last_op_unix = unix;
          last_request_time = touch unix s.last_request_time;
        },
        dispatch r d,
      )

  -- `tasks <- r`, and what the rest of the loop does
  abbrev pub handed :
      Request
      → List Request × Option Error × Session W × D
      → List Request × Option Error × Session W × D
  handed r (tasks, last, s, d) = (r ∷ tasks, last, s, d)

  -- loopReader for as many rounds as the first argument says: the tasks that it hands over, the
  -- error that ends it, and what it leaves.
  unfoldable pub loop_reader : ℕ → ℕ → Session W → D → List Request × Option Error × Session W × D
  loop_reader zero unix s d = ([], none, s, d)
  loop_reader (suc n) unix s d =
      let (frame, t) = read_frame s.transport in
      let q = record s { transport = t } in
      elim frame [
        | err e ↦ ([], some e, q, d)
        | ok bytes ↦
            let (u, (d', r, e)) = handle_request unix bytes q d in
            elim e [ some e' ↦ ([], some e', u, d') | none ↦ handed r (loop_reader n unix u d') ]
      ]

module _ (k : Sink) where
  open k use {W}

  -- A round of loopWriter with an answered request; `now` and `later` are the clock.
  unfoldable pub write_back : ℕ → ℕ → Request → Session W → Session W × Option Error
  write_back now later r s =
      let (t, _, _) = write s.transport (bytes_of r.response_data) in
      let (u, e) = flush_buffer k t true now later in (record s { transport = u }, e)

module _ (p : Protocol) (x : Exceptions) where
  -- handleResponse after r.Wait.Wait(), with the name of the part that it runs in: an error becomes
  -- an exception.
  abbrev pub converted : List ℕ → Request → Request
  converted part r = elim r.response_err [
    | none ↦ r
    | some _ ↦
        let (q, bytes) = get_thrift_exception p x part r in record q { response_data = some bytes }
  ]

  -- handleResponse: r.Wait.Wait() goes on at zero.
  unfoldable pub handle_response : List ℕ → Request → Option Request
  handle_response part r = elim r.wait [
    | none ↦ none
    | some n ↦ if n == 0 then some (converted part r) else none
  ]

  module _ (k : Sink) where
    open k use {W}

    -- loopWriter on the tasks, which are as they are when their turn comes, each with the clock then.
    unfoldable pub loop_writer :
        List ℕ → List (Request × ℕ × ℕ) → Session W → Option (Session W × Option Error)
    loop_writer part [] s = some (s, none)
    loop_writer part ((r, now, later) ∷ tasks) s = elim (handle_response part r) [
      | none ↦ none
      | some q ↦
          let (t, e) = write_back k now later q s in
          elim e [ some e' ↦ some (t, some e') | none ↦ loop_writer part tasks t ]
    ]
