-- ===== src/Conn.antt =====
-- One connection to a backend: what proxy/backend_conn_lb.go (BackendConnLB) and
-- proxy/backend_conn_proxy.go (BackendConn) have in common. Requests are numbers, the pointers to
-- them, and `requests` is the memory behind the pointers. `pending` is seqNum2Request, and
-- `input` is the queue of the channel, oldest first. IsConnActive is kept in the pool of the
-- service, which StateChanged works on, at this connection's number `self`.
-- A result `none` is a panic of Go: a closed channel, or a WaitGroup below zero.
pub mod SeqId
pub mod Accounts
pub mod Steps
pub mod Sending
pub mod Dropped
pub mod Routing
pub mod Entering
pub mod Hops
pub mod EndToEnd
pub mod Fleet
pub mod LoadBalancer
pub mod Proxy
pub mod Examples
use rpc_proxy.Prelude.{
  ℕ, zero, suc, ◌+◌, ◌-◌, Bool, true, false, ◌&&◌, Option, none, some, List, [], ◌∷◌, ◌++◌, length,
  ltb, ◌==◌, if◌then◌else◌, update, lookup, insert, erase,
}
use rpc_proxy.Errors.{Error, invalid_response}
use rpc_proxy.Thrift.{Protocol, message_type_heart_beat}
use rpc_proxy.Framing.{Transport, write, flush_buffer}
use rpc_proxy.Framing.Output.{Sink}
use rpc_proxy.Request.{
  Request, bytes_of, replace_seq_id, restore_seq_id, decode_thrift_typ_id_seq_id,
}
use rpc_proxy.Pool.{Pool}

-- proxy/consts.go
abbrev pub backend_conn_min_seq_id : ℕ
backend_conn_min_seq_id = 1

abbrev pub backend_conn_max_seq_id : ℕ
backend_conn_max_seq_id = 100_000

abbrev pub hb_timeout_seconds : ℕ
hb_timeout_seconds = 6

-- the buffer of the channel `input`
abbrev pub input_capacity : ℕ
input_capacity = 1024

-- What Heartbeat does at a tick of its timer: it times the connection out, pings, or ends.
pub data Tick : Type 0 where
  time_out ping end : Tick

pub record Conn (W : Type 0) : Type 0 where
  pub self : ℕ
  pub service_name : List ℕ
  pub verbose : Bool
  pub pool : Pool
  pub requests : ℕ → Request
  pub input : List ℕ
  pub input_closed : Bool
  pub pending : List (ℕ × ℕ)
  pub current_seq_id : ℕ
  pub hb_last_time : ℕ
  pub is_mark_offline : Bool
  pub transport : Transport W

-- IncreaseCurrentSeqId
unfoldable pub increase : ℕ → ℕ
increase seq = if ltb backend_conn_max_seq_id (seq + 1) then backend_conn_min_seq_id else seq + 1

-- r.Wait.Done(), where the pointer is not nil
abbrev pub wait_done : Option ℕ → Option (Option ℕ)
wait_done none = some none
wait_done (some zero) = none
wait_done (some (suc n)) = some (some n)

-- r.Wait.Add(1), where the pointer is not nil
abbrev pub wait_add : Option ℕ → Option ℕ
wait_add none = none
wait_add (some n) = some (suc n)

unfoldable pub done : Request → Option Request
done r = elim (wait_done r.wait) [ none ↦ none | some w ↦ some (record r { wait = w }) ]

-- r.Failed.Set(true), where the pointer is not nil
abbrev pub mark_failed : Option Bool → Option Bool
mark_failed none = none
mark_failed (some _) = some true

module _ {W : Type 0} where
  -- A request written back to memory; `none` passes a panic on.
  abbrev pub store : Conn W → ℕ → Option Error → Option Request → Option (Conn W × Option Error)
  store s r e none = none
  store s r e (some q) = some (record s { requests = update s.requests r q }, e)

  -- setResponse(r, nil, err): the request fails. The pointer `Failed` and the WaitGroup are told.
  unfoldable pub set_response_failed : ℕ → Error → Conn W → Option (Conn W × Option Error)
  set_response_failed r e s =
      let q = s.requests r in
      store s r (some e) (
        done
          (record q { response_data = none; response_err = some e; failed = mark_failed q.failed }))

  -- The end of setResponse(nil, data, nil), once the request is found: the answer is filled in under
  -- the client's sequence number, and the client's wait ends.
  unfoldable pub complete : Protocol → ℕ → List ℕ → ℕ → Conn W → Option (Conn W × Option Error)
  complete p type_id bytes r s =
      let q = record (s.requests r) {
        response_type_id = type_id;
        response_data = some bytes;
        response_err = none;
      } in
      store s r none (done (restore_seq_id p q))

  -- setResponse(nil, data, nil), once the header is decoded: the request is looked up and deleted
  -- from the table; a heartbeat counts as a sign of life, whatever it answers.
  unfoldable pub answer : Protocol → ℕ → ℕ → ℕ → List ℕ → Conn W → Option (Conn W × Option Error)
  answer p now type_id seq_id bytes s =
      let t = record s { pending = erase seq_id s.pending } in
      if type_id == message_type_heart_beat
      then some (record t { hb_last_time = now }, none)
      else elim (lookup seq_id s.pending) [
        | none ↦ some (t, some invalid_response)
        | some r ↦ complete p type_id bytes r t
      ]

  -- `for i := len(bc.input); i != 0; i--` of Run: what is queued fails with the writer's error.
  unfoldable pub drain : Error → List ℕ → Conn W → Option (Conn W)
  drain e [] s = some (record s { input = [] })
  drain e (r ∷ rs) s = elim (set_response_failed r e s) [ none ↦ none | some (t, _) ↦ drain e rs t ]

  -- `bc.input <- r`, after r.Wait.Add(1): a send on a closed channel panics. (A full channel blocks:
  -- the steps of the goroutines and Fleet test for room first.)
  unfoldable pub enqueue : ℕ → Conn W → Option (Conn W)
  enqueue r s =
      let q = s.requests r in
      let t = record s { requests = update s.requests r (record q { wait = wait_add q.wait }) } in
      if s.input_closed then none else some (record t { input = s.input ++ r ∷ [] })

module _ (k : Sink) (p : Protocol) where
  open k use {W}

  -- The end of a round of loopWriter, once FlushBuffer has answered.
  abbrev flushed :
      ℕ → Request → Conn W → Transport W × Option Error → Option (Conn W × Option Error)
  flushed r q s (c, none) = some (
    record s {
      transport = c;
      current_seq_id = increase s.current_seq_id;
      pending = insert q.response_seq_id r s.pending;
    },
    none,
  )
  flushed r q s (c, some e) = set_response_failed r e (record s { transport = c })

  -- A round of loopWriter that sends the request: `now` and `later` are the clock in nanoseconds.
  unfoldable pub send : ℕ → ℕ → ℕ → Conn W → Option (Conn W × Option Error)
  send now later r s = elim (replace_seq_id p s.current_seq_id (s.requests r)) [
    | none ↦ none
    | some q ↦
        let t = record s { requests = update s.requests r q } in
        let flush = length s.input == 0 in
        let (c, _, _) = write s.transport (bytes_of q.payload) in
        flushed r q t (flush_buffer k c flush now later)
  ]

  -- A round of loopWriter that received r from `input`: a heartbeat of more than four seconds ago is
  -- dropped. The answer is the error that ends the loop.
  unfoldable pub write_request : ℕ → ℕ → ℕ → ℕ → Conn W → Option (Conn W × Option Error)
  write_request unix now later r s =
      let q = s.requests r in
      if q.type_id == message_type_heart_beat && ltb 4 (unix - q.start)
      then some (s, none)
      else send now later r s
