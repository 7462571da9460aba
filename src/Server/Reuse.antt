-- ===== src/Server/Reuse.antt =====
-- Dispatch gives the memory of its answer back to the pool.
use rpc_proxy.Prelude.{ℕ, ◌+◌, ◌≤◌, ◌≡◌, refl, ap, some, List, [], ◌∷◌, arith, length}
use rpc_proxy.Buffers.{Slice, Buffers, get_slice, return_slice, init_slice, take_2048}
use rpc_proxy.Server.{Processor, dispatch, answered}

module _ (k : Processor) where
  open k use {process, bytes}

  -- What fits into a buffer's slice is written there.
  abbrev pub InPlace : Type 0
  InPlace =
      (b : Slice) (answer : List ℕ) (s : Buffers)
      → b.len + length answer ≤ b.cap
      → bytes b answer s ≡ (s, record b { len = b.len + length answer })

  abbrev fresh : Buffers → Slice
  fresh s = record { address = s.next_address; len = 0; cap = 2048 }

  abbrev after_first : Buffers → Buffers
  after_first s = record s { memory_buffer_2048 = fresh s ∷ []; next_address = s.next_address + 1 }

  abbrev allocated : Buffers → Buffers
  allocated s = record s { next_address = s.next_address + 1 }

  got : (s : Buffers) → s.memory_buffer_2048 ≡ [] → get_slice 0 1024 s ≡ some (allocated s, fresh s)
  unfolding get_slice
  got s empty = ap (λ bs. some (take_2048 0 s bs)) empty

  abbrev answer_slice : List ℕ → Buffers → Slice
  answer_slice msg s = record (fresh s) { len = 0 + length (process msg) }

  returned :
      (s : Buffers) (d : Slice)
      → s.memory_buffer_2048 ≡ []
      → d.cap ≡ 2048
      → answered k (fresh s) (allocated s, d) ≡ (after_first s, d)
  unfolding return_slice
  returned s d empty full = ground (arith, empty, full)

  first :
      (msg : List ℕ) (s : Buffers)
      → InPlace
      → length (process msg) ≤ 2048
      → s.memory_buffer_2048 ≡ []
      → dispatch k msg s ≡ some (after_first s, answer_slice msg s)
  unfolding dispatch
  first msg s in_place small empty =
      let written : bytes (fresh s) (process msg) (allocated s)
          ≡ (allocated s, answer_slice msg s) =
        in_place (fresh s) (process msg) (allocated s) (omega (arith, small)) in
      let d = got s empty in
      rw (d, written, dispatch) (ap some (returned s (answer_slice msg s) empty refl))

  second :
      (msg : List ℕ) (s : Buffers)
      → InPlace
      → length (process msg) ≤ 2048
      → dispatch k msg (after_first s) ≡ some (after_first s, answer_slice msg s)
  unfolding dispatch get_slice init_slice return_slice
  second msg s in_place small =
      let t = record (allocated s) { memory_buffer_2048 = [] } in
      let written : bytes (fresh s) (process msg) t ≡ (t, answer_slice msg s) =
        in_place (fresh s) (process msg) t (omega (arith, small)) in
      rw (written, dispatch, get_slice) refl

  -- Two requests, one after the other, where the pool of the larger slices is empty at first and the
  -- answers have at most 2048 bytes, which bytes.Buffer writes where there is room for them: the
  -- second answer is written over the memory of the first, whether or not the first one has been sent.
  pub dispatch_shares :
      (msg msg' : List ℕ) (s : Buffers)
      → InPlace
      → length (process msg) ≤ 2048
      → length (process msg') ≤ 2048
      → s.memory_buffer_2048 ≡ []
      → (t u : Buffers) × (d d' : Slice) × (dispatch k msg s ≡ some (t, d))
        × (dispatch k msg' t ≡ some (u, d'))
        × (d'.address ≡ d.address)
  dispatch_shares msg msg' s in_place small small' empty = (
    after_first s,
    after_first s,
    answer_slice msg s,
    answer_slice msg' s,
    first msg s in_place small empty,
    second msg' s in_place small',
    refl,
  )
