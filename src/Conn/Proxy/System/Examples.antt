-- ===== src/Conn/Proxy/System/Examples.antt =====
-- The goroutines of a proxy's connection to server 8, with request 1 queued, request 2 under number 7
-- and a loopReader of an earlier transport.
use rpc_proxy.Prelude.{arith, true, ◌≡◌, refl, false, none, some, [], update}
use rpc_proxy.Errors.{eof}
use rpc_proxy.Thrift.Binary.{binary}
use rpc_proxy.Framing.Output.{memory, Memory}
use rpc_proxy.Pool.{Pool, state_changed, remove_conn}
use rpc_proxy.Pool.Removal.{member}
use rpc_proxy.Conn.{Conn, done}
use rpc_proxy.Conn.Examples.{
  busy, busy-Accounts, busy-Quiet, one_worker, one_worker-Listed, one_worker-placed, waited,
  memory_of,
}
use rpc_proxy.Conn.Proxy.{push_back, flush_requests, fail_all, mark_conn_active_false, set_active}
use rpc_proxy.Conn.LoadBalancer.System.{selecting, received, ticking, ended}
use rpc_proxy.Conn.Proxy.System.{
  System, opening, looping, Step, receive, break, here, next, at_once, then_step,
}
use rpc_proxy.Conn.Proxy.System.Reached
use rpc_proxy.Conn.Proxy.System.Apart.{active}
use rpc_proxy.Conn.Proxy.System.Silenced.{silenced}
use rpc_proxy.Conn.Proxy.System.Late.{connects_late}

abbrev reopened : System Memory
reopened = record { conn = busy; phase = looping selecting; beat = ticking; readers = 2 }

reopened-Inv : Reached.Inv reopened
reopened-Inv = record { accounts = busy-Accounts; quiet = busy-Quiet }

abbrev left_list : Pool
left_list = record {
  active_conns = [];
  current_conn_index = 0;
  index = update one_worker.index 8 none;
  is_conn_active = update one_worker.is_conn_active 8 false;
}

abbrev flushed : Conn Memory
flushed = record busy {
  pool = left_list;
  pending = [];
  requests = update memory_of 2 (record waited { response_err = some eof; wait = some 0 });
}

flushed_eq : flush_requests eof busy ≡ some flushed
unfolding flush_requests fail_all mark_conn_active_false set_active state_changed remove_conn done
flushed_eq = refl

abbrev broken : System Memory
broken = record reopened { conn = flushed; readers = 1 }

abbrev goes_on : System Memory
goes_on = record broken { conn = record flushed { input = [] }; phase = looping (received 1) }

Reach-Counted_example : Reached.Inv goes_on
Reach-Counted_example =
    Reached.Reach-Counted memory binary reopened goes_on reopened-Inv
      (next (next here (break 1 eof refl flushed_eq)) (receive 1 [] refl refl))

silenced_example :
    (active goes_on.conn ≡ false) × (member goes_on.conn.pool goes_on.conn.self ≡ false)
silenced_example =
    silenced memory binary reopened goes_on flushed 1 eof
      (record { listed = one_worker-Listed; placed = one_worker-placed }) refl flushed_eq
      (then_step selecting at_once refl (receive 1 [] refl refl))

-- The connection before it was ever connected.
abbrev connecting : System Memory
connecting = record {
  conn = record busy {
    pool = record {
      active_conns = [];
      current_conn_index = 0;
      index = λ _. none;
      is_conn_active = λ _. false;
    };
  };
  phase = opening;
  beat = ended;
  readers = 0;
}

connects_late_example :
    (t u : System Memory) × Step memory binary connecting t
    × Step memory binary t u
    × (member u.conn.pool u.conn.self ≡ true)
    × (push_back 2 u.conn ≡ none)
connects_late_example = connects_late memory binary connecting 50 2 busy.transport refl (record {
  agrees = record { listed = λ i c h. ground (arith, h); placed = λ c i h. ground (arith, h) };
  inactive = refl;
  wanted = refl;
  accepts = refl;
})
