-- ===== src/Server/Accepting.antt =====
-- Run of the three servers (proxy/server_general_rpc.go, proxy/server_lb.go, proxy/server_proxy.go), from the
-- address that they listen at to their end: the goroutine that accepts connections and the one that
-- makes a session of each share the channel `ch`. The operating system's and thrift's server sockets
-- are an argument. `none` is a panic. That ch has room for 4096 connections is not modelled: the
-- other goroutine empties it.
use rpc_proxy.Prelude.{
  ℕ, ◌≡◌, refl, Bool, true, false, not, Option, none, some, List, [], ◌∷◌, ◌++◌, map, if◌then◌else◌,
  arith,
}
use mathlib.Core.List.{append_assoc, append-nil}
use rpc_proxy.Errors.{Error}
use rpc_proxy.Endpoints.{has_colon}

-- What Accept answers: a transport, and its Addr().String() where it is a SocketAddr.
pub record Accepted : Type 0 where
  pub transport : ℕ
  pub addr : Option (List ℕ)

-- A Unix domain socket or a TCP socket (the Boolean) is created and listens at an address, and Accept
-- answers these connections, and then an error.
pub record Sockets : Type 0 where
  pub new_server : Bool → List ℕ → Option Error
  pub listen : Bool → List ℕ → Option Error
  pub accept : List Accepted

-- the channel ch: all that was ever sent on it, in order
pub record Chan : Type 0 where
  pub sent : List Accepted
  pub closed : Bool

abbrev pub make_chan : Chan
make_chan = record { sent = []; closed = false }

-- ch <- c, and close(ch)
abbrev pub send_conn : Accepted → Chan → Option Chan
send_conn c ch = if ch.closed then none else some (record ch { sent = ch.sent ++ c ∷ [] })

unfoldable pub close_chan : Chan → Option Chan
close_chan ch = if ch.closed then none else some (record ch { closed = true })

abbrev pub unknow : List ℕ
unknow = b'u' ∷ b'n' ∷ b'k' ∷ b'n' ∷ b'o' ∷ b'w' ∷ []

-- The address that a session is given; the proxy tests in another order.
abbrev pub session_address : Bool → List ℕ → Option (List ℕ) → List ℕ
session_address is_unix_domain frontend_addr none = unknow
session_address is_unix_domain frontend_addr (some a) = if is_unix_domain then frontend_addr else a

abbrev pub proxy_session_address : Bool → List ℕ → Option (List ℕ) → List ℕ
proxy_session_address is_unix_domain proxy_addr none = if is_unix_domain then proxy_addr else unknow
proxy_session_address is_unix_domain proxy_addr (some a) = if is_unix_domain then proxy_addr else a

-- `for c := range ch`: a session for each connection, with its address
abbrev pub sessions : (Option (List ℕ) → List ℕ) → List Accepted → List (ℕ × List ℕ)
sessions address cs = map (λ (c : Accepted). (c.transport, address c.addr)) cs

-- The loop over Accept of the general server and of the proxy.
unfoldable pub accept_loop : List Accepted → Chan → Option Chan
accept_loop [] ch = some ch
accept_loop (c ∷ cs) ch = elim (send_conn c ch) [ none ↦ none | some d ↦ accept_loop cs d ]

-- That of the load balancer closes the channel when Accept fails.
unfoldable pub lb_accept_loop : List Accepted → Chan → Option Chan
lb_accept_loop [] ch = close_chan ch
lb_accept_loop (c ∷ cs) ch = elim (send_conn c ch) [ none ↦ none | some d ↦ lb_accept_loop cs d ]

-- `defer close(ch)`, at the end of all three
abbrev ended : (Option (List ℕ) → List ℕ) → Option Chan → Option (List (ℕ × List ℕ))
ended address none = none
ended address (some ch) = elim (close_chan ch) [
  | none ↦ none
  | some d ↦ some (sessions address d.sent)
]

-- Run of the general server; the sessions that it hands over.
unfoldable pub run_general : Sockets → List ℕ → Option (List (ℕ × List ℕ))
run_general o addr =
    let is_unix_domain = not (has_colon addr) in
    elim (o.new_server is_unix_domain addr) [
      | some e ↦ none
      | none ↦ elim (o.listen is_unix_domain addr) [
        | some e ↦ none
        | none ↦ ended (session_address is_unix_domain addr) (accept_loop o.accept make_chan)
      ]
    ]

-- ThriftLoadBalanceServer.Run
unfoldable pub run_lb : Sockets → List ℕ → Option (List (ℕ × List ℕ))
run_lb o addr =
    let is_unix_domain = not (has_colon addr) in
    elim (o.new_server is_unix_domain addr) [
      | some e ↦ none
      | none ↦ elim (o.listen is_unix_domain addr) [
        | some e ↦ none
        | none ↦ ended (session_address is_unix_domain addr) (lb_accept_loop o.accept make_chan)
      ]
    ]

-- ProxyServer.Run: without a socket, Listen runs on a nil pointer and panics; Listen's error is ignored.
unfoldable pub run_proxy : Sockets → List ℕ → Option (List (ℕ × List ℕ))
run_proxy o addr =
    let is_unix_domain = not (has_colon addr) in
    elim (o.new_server is_unix_domain addr) [
      | some e ↦ none
      | none ↦ ended (proxy_session_address is_unix_domain addr) (accept_loop o.accept make_chan)
    ]

abbrev behind : List Accepted → Chan → Chan
behind cs ch = record ch { sent = ch.sent ++ cs }

accept_loop-sent :
    (cs : List Accepted) (ch : Chan) → ch.closed ≡ false → accept_loop cs ch ≡ some (behind cs ch)
unfolding accept_loop
accept_loop-sent [] ch h = ground (arith, append-nil ch.sent)
accept_loop-sent (c ∷ cs) ch h =
    let d = behind (c ∷ []) ch in
    ground (arith, h, accept_loop-sent cs d h, append_assoc ch.sent (c ∷ []) cs)

lb_accept_loop-sent :
    (cs : List Accepted) (ch : Chan)
    → ch.closed ≡ false
    → lb_accept_loop cs ch ≡ some (record (behind cs ch) { closed = true })
unfolding lb_accept_loop close_chan
lb_accept_loop-sent [] ch h = ground (arith, append-nil ch.sent)
lb_accept_loop-sent (c ∷ cs) ch h =
    let d = behind (c ∷ []) ch in
    ground (arith, h, lb_accept_loop-sent cs d h, append_assoc ch.sent (c ∷ []) cs)

-- Where the server's socket is created and Listen succeeds, the general server and the proxy hand each
-- connection that Accept answers, in its order and with its address, to the goroutine that makes
-- sessions of them, and return without a panic.
pub run_general-sessions :
    (o : Sockets) (addr : List ℕ)
    → o.new_server (not (has_colon addr)) addr ≡ none
    → o.listen (not (has_colon addr)) addr ≡ none
    → (run_general o addr ≡ some (sessions (session_address (not (has_colon addr)) addr) o.accept))
      × (run_proxy o addr
          ≡ some (sessions (proxy_session_address (not (has_colon addr)) addr) o.accept))
unfolding run_general run_proxy close_chan
run_general-sessions o addr made listens = (
  ground (arith, made, listens, accept_loop-sent o.accept make_chan refl),
  ground (arith, made, accept_loop-sent o.accept make_chan refl),
)

-- Run of the load balancer never returns: where it does not panic on its socket, it closes the channel
-- twice, which is a panic as well.
pub run_lb-panics : (o : Sockets) (addr : List ℕ) → run_lb o addr ≡ none
unfolding run_lb close_chan
run_lb-panics o addr = ground (arith, lb_accept_loop-sent o.accept make_chan refl)
