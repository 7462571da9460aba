-- ===== src/Conn/Examples.antt =====
-- A load balancer's connection to worker 8, with request 1 queued and request 2 under number 7.
use rpc_proxy.Prelude.{
  get_elem?, not, ℕ, zero, suc, ◌≡◌, ◌≢◌, refl, true, false, Option, none, some, List, [], ◌∷◌,
  ◌++◌, arith, lookup, update,
}
use rpc_proxy.Errors.{Error, eof, io}
use rpc_proxy.Thrift.Binary.{binary, write}
use rpc_proxy.Framing.{Transport, put_uint32}
use rpc_proxy.Framing.Output.{memory, Memory}
use rpc_proxy.Request.{Request, blank, replace_seq_id, overwrite}
use rpc_proxy.Pool.{Pool}
use rpc_proxy.Pool.Invariant.{Listed}
use rpc_proxy.Conn.{Conn, answer, enqueue, write_request}
use rpc_proxy.Conn.SeqId.{InRange, after, after_distinct}
use rpc_proxy.Conn.Dropped.{write_request_drops}
use rpc_proxy.Thrift.{message_type_heart_beat}
use rpc_proxy.Conn.Accounts.{places, Accounts}
use rpc_proxy.Conn.Steps.{answer-Accounts, enqueue-Accounts}
use rpc_proxy.Conn.Sending.{write_request-Accounts}
use rpc_proxy.Conn.Routing.{Answered, answer-Answered}
use rpc_proxy.Conn.Proxy
use rpc_proxy.Conn.Proxy.Release.{everyone_let_go}
use rpc_proxy.Conn.LoadBalancer.{flush_requests, run_end}
use rpc_proxy.Conn.LoadBalancer.Release.{Quiet, everyone_released}

abbrev idle : Transport Memory
idle = record {
  frame_size = 0;
  buffer = [];
  max_length = 16_384_000;
  max_buffered = 20;
  max_interval = 100_000;
  nbuffered = 0;
  lastflush = 0;
  reader = record { bytes = []; end = eof };
  writer = record { held = []; gone = [] };
}

abbrev pub one_worker : Pool
one_worker = record {
  active_conns = 8 ∷ [];
  current_conn_index = 0;
  index = update (λ _. none) 8 (some 0);
  is_conn_active = λ _. true;
}

abbrev near : List ℕ
near = b'n' ∷ b'e' ∷ []

-- A request of the client's number 77 for which its session waits.
abbrev pub waited : Request
waited = record blank {
  name = near;
  type_id = 1;
  seq_id = 77;
  payload = some (write near 1 77 ++ 0 ∷ []);
  wait = some 1;
}

abbrev pub memory_of : ℕ → Request
memory_of = update (update (λ _. record blank { wait = some 0 }) 1 waited) 2 waited

abbrev pub busy : Conn Memory
busy = record {
  self = 8;
  service_name = near;
  verbose = false;
  pool = one_worker;
  requests = memory_of;
  input = 1 ∷ [];
  input_closed = false;
  pending = (7, 2) ∷ [];
  current_seq_id = 8;
  hb_last_time = 0;
  is_mark_offline = false;
  transport = idle;
}

pub busy-Accounts : Accounts [] busy
unfolding lookup
busy-Accounts = record { keys = (refl, tt); waits = λ r n h. ground arith }

-- After request 1 was taken from the queue.
abbrev pub in_hand : Conn Memory
in_hand = record busy { input = [] }

pub in_hand-Accounts : Accounts (1 ∷ []) in_hand
unfolding lookup
in_hand-Accounts = record { keys = (refl, tt); waits = λ r n h. ground arith }

pub busy-Quiet : Quiet busy
busy-Quiet r h = ground arith

pub one_worker-Listed : Listed one_worker
one_worker-Listed zero c h = ground arith
one_worker-Listed (suc i) c h = ground arith

after_distinct_example : InRange (after 3 99_999) × (after 1 99_999 ≢ after 3 99_999)
after_distinct_example =
    after_distinct 1 3 99_999 (omega arith, omega arith) (omega arith) (omega arith)

enqueue-Accounts_test : (t : Conn Memory) × (enqueue 1 busy ≡ some t) × Accounts [] t
enqueue-Accounts_test = enqueue-Accounts [] 1 busy busy-Accounts refl

answer-Accounts_test :
    (t : Conn Memory) × (e : Option Error) × (answer binary 50 2 7 (write near 2 7) busy
      ≡ some (t, e))
    × Accounts [] t
answer-Accounts_test =
    answer-Accounts binary [] 50 2 7 (write near 2 7) busy busy-Accounts
      (λ h. absurd (omega (arith, h)))

found : lookup 7 busy.pending ≡ some 2
unfolding lookup
found = refl

answer-Answered_example :
    (t : Conn Memory) × (answer binary 50 2 7 (write near 2 7 ++ 5 ∷ []) busy ≡ some (t, none))
    × Answered binary near 2 7 2 (5 ∷ []) busy t
    × ((t.requests 2).wait ≡ some 0)
answer-Answered_example =
    answer-Answered binary 50 near 2 7 2 0 (5 ∷ []) busy (λ h. omega (arith, h)) found refl refl

abbrev numbered : Request
unfolding replace_seq_id
numbered = record waited { response_seq_id = 8; payload = some (write near 1 8 ++ 0 ∷ []) }

numbered_eq : replace_seq_id binary 8 waited ≡ some numbered
unfolding replace_seq_id overwrite put_uint32
numbered_eq = refl

free : lookup in_hand.current_seq_id in_hand.pending ≡ none
unfolding lookup
free = refl

write_request-Accounts_example :
    (t : Conn Memory) × (e : Option Error) × (write_request memory binary 50 60 70 1 in_hand
      ≡ some (t, e))
    × Accounts [] t
write_request-Accounts_example =
    write_request-Accounts memory binary 50 60 70 1 in_hand numbered (write near 1 77 ++ 0 ∷ [])
      in_hand-Accounts free refl numbered_eq (λ h. absurd (omega (arith, h)))

everyone_released_example :
    (t u : Conn Memory) × (flush_requests eof busy ≡ some t)
    × (run_end (some (io 1)) t ≡ some u)
    × ((u.requests 2).wait ≢ some 1)
everyone_released_example =
    everyone_released eof (io 1) 0 busy 2 0 busy-Accounts busy-Quiet refl one_worker-Listed refl

pub one_worker-placed :
    (c i : ℕ) → one_worker.index c ≡ some i → get_elem? one_worker.active_conns i ≡ some c
one_worker-placed c i h = ground arith

everyone_let_go_example :
    (t u : Conn Memory) × (Proxy.flush_requests eof busy ≡ some t)
    × (Proxy.run_end (some (io 1)) t ≡ some (u, not u.is_mark_offline))
    × ((u.requests 2).wait ≢ some 1)
everyone_let_go_example =
    everyone_let_go eof (io 1) busy 2 0 busy-Accounts
      (record { listed = one_worker-Listed; placed = one_worker-placed })

-- A client's message of the heartbeat's type at hand.
abbrev pinged : Conn Memory
pinged = record in_hand {
  requests = update memory_of 1 (record waited { type_id = message_type_heart_beat });
}

pinged-Accounts : Accounts (1 ∷ []) pinged
unfolding lookup
pinged-Accounts = record { keys = (refl, tt); waits = λ r n h. ground arith }

write_request_drops_test :
    (write_request memory binary 50 60 70 1 pinged ≡ some (pinged, none)) × (places [] pinged 1 ≡ 0)
write_request_drops_test =
    write_request_drops memory binary 50 60 70 1 pinged pinged-Accounts refl refl refl (omega arith)
