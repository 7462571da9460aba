-- ===== src/Conn/LoadBalancer/System/Examples.antt =====
-- The goroutines of a load balancer's connection to worker 8, with request 1 queued and request 2
-- under number 7.
use rpc_proxy.Prelude.{◌≡◌, ◌≢◌, ◌<◌, refl, true, false, some, [], ◌∷◌, update, lookup, arith}
use rpc_proxy.Thrift.Binary.{binary}
use rpc_proxy.Framing.Output.{memory, Memory}
use rpc_proxy.Errors.{eof, hb_timeout}
use rpc_proxy.Pool.LoadBalancer.{state_changed, remove_conn}
use rpc_proxy.Conn.Accounts.{count, places}
use rpc_proxy.Conn.LoadBalancer.System.LetGo.{HasResult, let_go_with_result}
use rpc_proxy.Conn.LoadBalancer.System.Hung.{timed_out, hung}
use rpc_proxy.Conn.{Conn, time_out, done, enqueue, send}
use rpc_proxy.Conn.Examples.{
  busy, busy-Accounts, busy-Quiet, in_hand, one_worker, waited, memory_of,
}
use rpc_proxy.Conn.LoadBalancer.{
  push_back, heartbeat, flush_requests, fail_all, mark_conn_active_false, close_input,
}
use rpc_proxy.Conn.LoadBalancer.System.{
  System, selecting, ticking, received, left, receive, push, break, Reach, here, next, send_frame,
}
use rpc_proxy.Conn.LoadBalancer.System.Reached.{Inv, Reach-Inv}
use rpc_proxy.Conn.LoadBalancer.System.Atomic.{at_once, send-send_frame}
use rpc_proxy.Conn.LoadBalancer.System.Stranded.{stranded}

abbrev start : System Memory
start = record { conn = busy; writer = selecting; beat = ticking; reading = true }

start-Inv : Inv start
start-Inv = record { accounts = busy-Accounts; quiet = busy-Quiet }

-- A session hands over request 3.
abbrev handed_over : Conn Memory
handed_over = record busy {
  requests =
      update (update busy.requests 3 (record (busy.requests 3) { service = busy.service_name })) 3
        (record (busy.requests 3) { service = busy.service_name; wait = some 1 });
  input = 1 ∷ 3 ∷ [];
}

handed_over_eq : push_back 3 busy ≡ some handed_over
unfolding push_back enqueue
handed_over_eq = refl

abbrev taken : System Memory
taken = record {
  conn = record handed_over { input = 3 ∷ [] };
  writer = received 1;
  beat = ticking;
  reading = true;
}

two_steps : Reach memory binary start taken
two_steps =
    next (next here (push 3 (omega arith) (omega arith) refl handed_over_eq))
      (receive 1 (3 ∷ []) refl refl)

Reach-Inv_example : Inv taken
Reach-Inv_example = Reach-Inv memory binary start taken start-Inv two_steps

-- loopReader fails: request 2 fails, and worker 8 leaves the list.
abbrev flushed : Conn Memory
flushed = record busy {
  pool = record one_worker {
    active_conns = [];
    is_conn_active = update one_worker.is_conn_active 8 false;
  };
  pending = [];
  requests = update memory_of 2 (record waited { response_err = some eof; wait = some 0 });
  input_closed = true;
}

flushed_eq : flush_requests eof busy ≡ some flushed
unfolding flush_requests fail_all mark_conn_active_false state_changed remove_conn done close_input
flushed_eq = refl

abbrev broken : System Memory
broken = record start { conn = flushed; reading = false }

let_go_with_result_example : HasResult (broken.conn.requests 2) × (places [] broken.conn 2 ≡ 0)
let_go_with_result_example =
    let_go_with_result memory binary start broken 2 0 start-Inv refl
      (next here (break eof refl flushed_eq)) refl

late_tick : heartbeat 7 busy ≡ time_out
unfolding heartbeat
late_tick = refl

abbrev stuck : System Memory
stuck = record (timed_out start) { conn = flushed; reading = false }

hung_example :
    Reach memory binary start (timed_out start)
    × (stuck.writer ≡ left (some hb_timeout))
    × (0 < count 1 stuck.conn.input)
    × ((stuck.conn.requests 1).wait ≢ some 0)
hung_example =
    hung memory binary 7 1 start stuck start-Inv refl refl late_tick (omega arith)
      (next here (break eof refl flushed_eq))

-- loopReader has ended, and request 2 was entered after that.
abbrev late : System Memory
late = record {
  conn = record busy { input_closed = true };
  writer = selecting;
  beat = ticking;
  reading = false;
}

abbrev later : System Memory
later = record {
  conn = record in_hand { input_closed = true };
  writer = received 1;
  beat = ticking;
  reading = false;
}

stranded_example : (lookup 7 later.conn.pending ≡ some 2) × ((later.conn.requests 2).wait ≢ some 0)
unfolding lookup
stranded_example =
    stranded memory binary 7 2 late later
      (record {
        accounts = record { keys = busy-Accounts.keys; waits = busy-Accounts.waits };
        quiet = busy-Quiet;
      })
      refl refl (next here (receive 1 [] refl refl))

send-send_frame_test :
    send memory binary 60 70 1 in_hand ≡ at_once 1 (send_frame memory binary 60 70 1 in_hand)
send-send_frame_test = send-send_frame memory binary 60 70 1 in_hand
