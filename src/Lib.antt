-- ===== src/Lib.antt =====
-- rpc_proxy: a proxy and a load balancer for thrift services. A client's session (Session) reads
-- framed messages (Framing), makes requests of them (Request) and hands them to a dispatcher: the
-- router of the proxy (Router) looks the service up and the service picks one of its connections in
-- turn (Pool); the load balancer has one service, whose workers connect to it. A connection (Conn)
-- puts its own sequence number into the request, sends it, and pairs the answers that come back with
-- the requests that wait, under the clients' numbers again. When a connection breaks, the requests
-- in its queue and its table fail, and the session answers with an exception (Exceptions).
--
-- Files and code:
--   Framing     proxy/buffered_framed_transport.go; Framing/Input and Framing/Output are the reader and
--               the writer below it, bufio over a thrift transport, as arguments with bufio's laws.
--   Thrift      what is used of thrift's binary protocol, as an argument; Thrift/Binary is one.
--   Request     proxy/request.go and proxy/heartbeat.go.
--   Pool        the lists of connections in proxy/backend_service_proxy.go, and in Pool/LoadBalancer
--               those of proxy/backend_service_lb.go; Pool/Dispatching hands them requests,
--               Pool/Stopping is Stop with its wait (Pool/Idle), and Pool/Notifying interleaves the
--               notifications of all connections of a service.
--   Endpoints   the watch of the addresses in proxy/backend_service_proxy.go.
--   Conn        what proxy/backend_conn_lb.go and proxy/backend_conn_proxy.go share; Conn/LoadBalancer
--               and Conn/Proxy have what differs.
--               Conn/LoadBalancer/System is the step relation of the load balancer's goroutines, and
--               Conn/Proxy/System that of the proxy's; both have the state of Heartbeat, which loopWriter
--               waits for at its end. Conn/Fleet is a
--               service with all its connections, and Conn/EndToEnd a call that passes the proxy and
--               the load balancer.
--   Exceptions  proxy/thrift_exception.go.
--   Session     proxy/session_proxy.go and proxy/session_nonblock.go; Session/Pipeline and
--               Session/Serving interleave the goroutines of the two.
--   Server      proxy/server_general_rpc.go, without its registration, which stands in Topology;
--               Server/Accepting is Run of this server, of proxy/server_lb.go and of
--               proxy/server_proxy.go, and Server/Workers is run of proxy/backend_service_lb.go, where
--               the connections that break off meanwhile are an argument.
--   Router      proxy/router_proxy.go.
--   Stats       proxy/stats.go.
--   Buffers     proxy/memory_alloc.go, and Recycle of proxy/request.go.
--   Zk          utils/zk.go.
--   Topology    zk/topology.go, proxy/endpoint.go, and RegisterService of
--               proxy/server_general_rpc.go, with its watches in Topology/Watches; Topology/Paths has
--               the paths as strings, and Topology/Tree is a tree of nodes that fits its hypotheses.
--   Config      utils/config.go and proxy/utils_config_checker.go.
--   Errors, Prelude: errors as values; Boolean tests, lists and maps on the native numbers.
--
-- State is passed explicitly. Pointers to requests and connections are numbers, and what they point
-- to is a function from numbers. A panic of Go is `none`, as is, in Conn/Fleet, a send that waits
-- because its channel is full. Each operation is one step, and a theorem
-- says what one step, or a given sequence of them, does. The goroutines of a connection and of a
-- session are interleaved by step relations, whose steps carry as premises what they take for granted
-- of the rest of the program; in a connection's, loopWriter's round is three steps, and the lock of
-- the table makes each access to it one step. Clocks are arguments. The loops over a channel or a
-- socket run on the list of what they receive, or for a given number of rounds. The eleven rounds of
-- the ZooKeeper retry are the source's own bound; the wait of a server for its last requests gets as
-- many rounds as its theorem shows to be enough.
--
-- Not modelled: sockets, command lines and logging. Connections interleave with each
-- other in their notifications of the service (Pool/Notifying); what else a connection does is
-- interleaved with the goroutines of that connection only.
pub mod Prelude
pub mod Errors
pub mod Framing
pub mod Thrift
pub mod Request
pub mod Pool
pub mod Conn
pub mod Exceptions
pub mod Server
pub mod Session
pub mod Router
pub mod Endpoints
pub mod Stats
pub mod Buffers
pub mod Zk
pub mod Topology
pub mod Config
