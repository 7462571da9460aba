-- ===== src/Conn/Dropped.antt =====
-- A client's message of the type of a heartbeat, which loopWriter takes for an old one of its own.
use rpc_proxy.Prelude.{ℕ, ◌<◌, ◌≡◌, none, some, [], ◌∷◌, arith}
use rpc_proxy.Thrift.{Protocol, message_type_heart_beat}
use rpc_proxy.Framing.Output.{Sink}
use rpc_proxy.Conn.{Conn, write_request}
use rpc_proxy.Conn.Accounts.{Accounts, places}

module _ (k : Sink) (p : Protocol) where
  open k use {W}

  -- A request at hand whose type is the heartbeat's and whose Start is zero, for which its session
  -- waits once, is dropped by loopWriter where the clock is past 4: the session goes on waiting, and
  -- the request stands in neither the queue nor the table, where an answer or an error could find it.
  pub write_request_drops :
      (unix now later r : ℕ) (s : Conn W)
      → Accounts (r ∷ []) s
      → (s.requests r).type_id ≡ message_type_heart_beat
      → (s.requests r).start ≡ 0
      → (s.requests r).wait ≡ some 1
      → 4 < unix
      → (write_request k p unix now later r s ≡ some (s, none)) × (places [] s r ≡ 0)
  unfolding write_request
  write_request_drops unix now later r s a ping unset waiting late =
      (ground (arith, ping, unset), ground (arith, a.waits r 1 waiting))
