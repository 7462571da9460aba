-- ===== src/Server.antt =====
-- proxy/server_general_rpc.go: a server of the repository's own: its identity in ZooKeeper, the
-- dispatch of a request to its processor, and the wait for the last requests before it ends. The
-- processor, and bytes.Buffer under the memory transport, are arguments.
pub mod Identity
pub mod Reuse
pub mod Ending
pub mod Accepting
pub mod Workers
mod Examples
use rpc_proxy.Prelude.{
  ℕ, zero, suc, ◌-◌, ◌==◌, Bool, not, Option, none, some, List, [], ◌∷◌, ◌++◌, ltb, length, drop,
  if◌then◌else◌,
}
use rpc_proxy.Pool.Idle.{wait_idle}
use rpc_proxy.Buffers.{Slice, Buffers, get_slice, return_slice, default_slice_len}

-- strings.Replace(s, old, new, -1), where `old` is one byte
abbrev pub replace_all : ℕ → List ℕ → List ℕ → List ℕ
replace_all old by [] = []
replace_all old by (x ∷ xs) =
    let rest = replace_all old by xs in if x == old then by ++ rest else x ∷ rest

-- GetServiceIdentity, without the limit of its length
abbrev pub plain_identity : List ℕ → List ℕ
plain_identity frontend_addr =
    replace_all b'/' [] (replace_all b':' (b'_' ∷ []) (replace_all b'.' (b'_' ∷ []) frontend_addr))

-- GetServiceIdentity
unfoldable pub get_service_identity : List ℕ → List ℕ
get_service_identity frontend_addr =
    let fid = plain_identity frontend_addr in
    if ltb 20 (length fid) then drop (length fid - 20) fid else fid

-- The processor with the binary protocol, from the request's bytes to the answer's, and bytes.Buffer:
-- what Bytes() is once the given bytes are written to a buffer made of a slice.
pub record Processor : Type 0 where
  pub process : List ℕ → List ℕ
  pub bytes : Slice → List ℕ → Buffers → Buffers × Slice

module _ (k : Processor) where
  open k use {process, bytes}

  -- Dispatch, once it has its slice: the pool, and the slice of r.Response.Data.
  abbrev pub answered : Slice → Buffers × Slice → Buffers × Slice
  answered slice (s, written) =
      if not (written.cap == default_slice_len)
      then ((return_slice slice s).0, written)
      else (s, written)

  -- Dispatch; `none` is the panic of getSlice.
  unfoldable pub dispatch : List ℕ → Buffers → Option (Buffers × Slice)
  dispatch request s = elim (get_slice 0 default_slice_len s) [
    | none ↦ none
    | some (t, slice) ↦ some (answered slice (bytes slice (process request) t))
  ]

-- The loop of Run that waits for the last requests, with the rounds that are left and the number of
-- this one
unfoldable pub graceful_exit : (ℕ → ℕ) → (ℕ → ℕ) → ℕ → ℕ → Option ℕ
graceful_exit now last_request_time n i = wait_idle 5 now last_request_time n i
