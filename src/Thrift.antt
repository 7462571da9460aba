-- ===== src/Thrift.antt =====
-- What the program uses of thrift's binary protocol, a third-party package: an argument of the
-- model. `write_message_begin name type seq` is what WriteMessageBegin writes, and
-- `read_message_begin` reads that much from the front of a message. An int32 is its bit pattern.
-- The laws are the documentation of the strict encoding: four bytes of version and type, the
-- name behind its length, four bytes of sequence number.
pub mod Binary
use Prim.Native.Nat.{ℕ, ◌+◌, ◌<◌}
use mathlib.Core.Path.{◌≡◌}
use mathlib.Core.List.{List, ◌++◌}
use mathlib.Core.Option.{Option, none}
use rpc_proxy.Prelude.{length}
use rpc_proxy.Errors.{Error}

-- name, type, sequence number; the Go functions return zero values beside an error
pub record MessageBegin : Type 0 where
  pub name : List ℕ
  pub type_id : ℕ
  pub seq_id : ℕ

abbrev pub IsHeader : List ℕ → ℕ → ℕ → Type 0
IsHeader name type_id seq_id =
    (length name < 2_147_483_648) × (type_id < 256) × (seq_id < 4_294_967_296)

pub record Protocol : Type 0 where
  pub write_message_begin : List ℕ → ℕ → ℕ → List ℕ
  pub read_message_begin : List ℕ → MessageBegin × Option Error
  pub length_write :
      (name : List ℕ) (type_id seq_id : ℕ)
      → length (write_message_begin name type_id seq_id) ≡ length name + 12
  pub read-write :
      (name : List ℕ) (type_id seq_id : ℕ) (rest : List ℕ)
      → IsHeader name type_id seq_id
      → read_message_begin (write_message_begin name type_id seq_id ++ rest)
        ≡ (record { name = name; type_id = type_id; seq_id = seq_id }, none)

-- thrift.EXCEPTION, and the two types that the program adds (proxy/request.go)
abbrev pub exception : ℕ
exception = 3

abbrev pub message_type_heart_beat : ℕ
message_type_heart_beat = 20

abbrev pub message_type_stop : ℕ
message_type_stop = 21

-- thrift.MULTIPLEXED_SEPARATOR, ":"
abbrev pub multiplexed_separator : ℕ
multiplexed_separator = 58
