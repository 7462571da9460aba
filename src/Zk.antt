-- ===== src/Zk.antt =====
-- utils/zk.go: the connection to ZooKeeper that is built anew when it fails (connBuilder, safeConn,
-- unsafeConn). The zk client, a third-party package, is a parameter, with the function that opens a
-- connection. The eleven methods of safeConn, Get to SetACL, are the same loop around a call of the
-- connection, and those of unsafeConn one such call: the operation with its arguments is an
-- argument here. The lock is not modelled: the methods run one at a time.
pub mod Retry
mod Examples
use rpc_proxy.Prelude.{
  ℕ, zero, suc, ◌+◌, Bool, true, false, not, ◌&&◌, Option, none, some, ltb, if◌then◌else◌,
}

abbrev pub retry_max_on_ops : ℕ
retry_max_on_ops = 10

-- time.Second
abbrev pub second : ℕ
second = 1_000_000_000

-- What a call of the client answers.
pub data Reply (V E : Type 0) : Type 0 where
  value : V → Reply V E
  error : E → Reply V E

-- How a method ends: log.Fatal ends the program, and a call of a nil connection panics.
pub data Outcome (V E : Type 0) : Type 0 where
  answered : V → Outcome V E
  refused : E → Outcome V E
  fatal panic : Outcome V E

-- The client: the world `W` it acts on, its connections `C`, its operations `Op`, what they answer.
-- `now` is the clock in nanoseconds.
pub record Client (W C Op V E : Type 0) : Type 0 where
  pub err_no_node : E
  pub err_node_exists : E
  pub err_not_empty : E
  pub zk_error_equal : E → E → Bool
  pub call : Op → C → W → W × Reply V E
  pub build : W → W × Option C
  pub close : C → W → W
  pub now : W → ℕ

-- connBuilder with its two instances; created_on is `none` for the zero time.
pub record ConnBuilder (C : Type 0) : Type 0 where
  pub has_builder : Bool
  pub connection : Option C
  pub created_on : Option ℕ
  pub safe_conn : Option C
  pub unsafe_conn : Option C

abbrev pub recent : ℕ → Option ℕ → Bool
recent now none = false
recent now (some created) = ltb now (created + second)

module _ {W C Op V E : Type 0} (k : Client W C Op V E) where
  open k use {err_no_node, err_node_exists, err_not_empty, zk_error_equal, call, build, close, now}

  unfoldable pub is_connection_error : E → Bool
  is_connection_error e =
      not (zk_error_equal err_no_node e)
      && not (zk_error_equal err_node_exists e)
      && not (zk_error_equal err_node_exists e)
      && not (zk_error_equal err_not_empty e)

  abbrev close_old : Option C → W → W
  close_old none w = w
  close_old (some c) w = close c w

  -- What resetConnection does with the answer of the builder.
  abbrev installed : ConnBuilder C → W × Option C → W × Option (ConnBuilder C)
  installed b (w, none) = (w, none)
  installed b (w, some c) = (
    w,
    some (record b {
      connection = some c;
      safe_conn = some c;
      unsafe_conn = some c;
      created_on = some (now w);
    }),
  )

  -- resetConnection; `none` is log.Fatal.
  unfoldable pub reset_connection : ConnBuilder C → W → W × Option (ConnBuilder C)
  reset_connection b w =
      if not b.has_builder
      then (w, none)
      else if recent (now w) b.created_on
      then (w, some b)
      else installed b (build (close_old b.connection w))

  -- NewConnBuilder
  unfoldable pub new_conn_builder : W → W × Option (ConnBuilder C)
  new_conn_builder w =
      reset_connection
        (record {
          has_builder = true;
          connection = none;
          created_on = none;
          safe_conn = none;
          unsafe_conn = none;
        })
        w

  -- The loop of a method of safeConn, with the number of rounds that are left.
  unfoldable pub retry : ℕ → Op → ConnBuilder C → W → W × ConnBuilder C × Outcome V E
  retry zero op b w = (w, b, fatal)
  retry (suc n) op b w = elim b.safe_conn [
    | none ↦ (w, b, panic)
    | some c ↦
        let (w', reply) = call op c w in
        elim reply [
          | value v ↦ (w', b, answered v)
          | error e ↦ elim (is_connection_error e) [
            | false ↦ (w', b, refused e)
            | true ↦
                let (w'', reset) = reset_connection b w' in
                elim reset [ none ↦ (w'', b, fatal) | some b' ↦ retry n op b' w'' ]
          ]
        ]
  ]

  -- a method of safeConn: `for i := 0; i <= retryMaxOnOps; i++`
  unfoldable pub safe_call : Op → ConnBuilder C → W → W × ConnBuilder C × Outcome V E
  safe_call op b w = retry (suc retry_max_on_ops) op b w

  -- The answer of a call, and whether `go resetConnection()` is started.
  abbrev answer_of : Reply V E → Outcome V E × Bool
  answer_of (value v) = (answered v, false)
  answer_of (error e) = (refused e, is_connection_error e)

  -- a method of unsafeConn
  unfoldable pub unsafe_call : Op → ConnBuilder C → W → W × (Outcome V E × Bool)
  unsafe_call op b w = elim b.unsafe_conn [
    | none ↦ (w, (panic, false))
    | some c ↦ let (w', reply) = call op c w in (w', answer_of reply)
  ]
