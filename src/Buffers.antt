-- ===== src/Buffers.antt =====
-- proxy/memory_alloc.go: the pool of byte slices. A slice is its address, length and capacity; the
-- two channels are queues, oldest first, that hold up to 1000 slices; make() takes the next address.
-- The bytes are not modelled: initSlice changes only the length.
pub mod Reuse
pub mod Recycling
mod Examples
use rpc_proxy.Prelude.{
  ℕ, suc, ◌+◌, Bool, true, false, Option, none, some, List, [], ◌∷◌, ◌++◌, ltb, ◌==◌, if◌then◌else◌,
  length,
}

abbrev pub default_slice_len : ℕ
default_slice_len = 1024

-- the buffer of each channel
abbrev pub pool_capacity : ℕ
pool_capacity = 1000

pub record Slice : Type 0 where
  pub address : ℕ
  pub len : ℕ
  pub cap : ℕ

pub record Buffers : Type 0 where
  pub memory_buffer_1024 : List Slice
  pub memory_buffer_2048 : List Slice
  pub next_address : ℕ

abbrev make : ℕ → ℕ → Buffers → Buffers × Slice
make len cap s = (
  record s { next_address = s.next_address + 1 },
  record { address = s.next_address; len = len; cap = cap },
)

-- initSlice
unfoldable pub init_slice : Slice → ℕ → Slice
init_slice b init_size = if b.len == init_size then b else record b { len = init_size }

-- `case result = <-pool`, or the default where the channel is empty
abbrev take_1024 : ℕ → Buffers → List Slice → Buffers × Slice
take_1024 init_size s [] = make init_size default_slice_len s
take_1024 init_size s (b ∷ rest) = (record s { memory_buffer_1024 = rest }, init_slice b init_size)

abbrev pub take_2048 : ℕ → Buffers → List Slice → Buffers × Slice
take_2048 init_size s [] = make init_size 2048 s
take_2048 init_size s (b ∷ rest) = (record s { memory_buffer_2048 = rest }, init_slice b init_size)

-- getSlice; `none` is the panic.
unfoldable pub get_slice : ℕ → ℕ → Buffers → Option (Buffers × Slice)
get_slice init_size capacity s =
    if ltb capacity init_size
    then none
    else if ltb capacity default_slice_len
    then some (take_1024 init_size s s.memory_buffer_1024)
    else if ltb capacity 2048
    then some (take_2048 init_size s s.memory_buffer_2048)
    else some (make init_size capacity s)

-- returnSlice: a full channel takes nothing.
unfoldable pub return_slice : Slice → Buffers → Buffers × Bool
return_slice b s =
    if b.cap == 1024
    then (if ltb (length s.memory_buffer_1024) pool_capacity
        then (record s { memory_buffer_1024 = s.memory_buffer_1024 ++ b ∷ [] }, true)
        else (s, false))
    else if b.cap == 2048
    then (if ltb (length s.memory_buffer_2048) pool_capacity
        then (record s { memory_buffer_2048 = s.memory_buffer_2048 ++ b ∷ [] }, true)
        else (s, false))
    else (s, false)
