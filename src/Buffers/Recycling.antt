-- ===== src/Buffers/Recycling.antt =====
-- Request.Recycle of proxy/request.go: the slices of a request that has been answered go back to the
-- pool.
use rpc_proxy.Prelude.{
  ℕ, suc, ◌+◌, ◌≤◌, ◌≡◌, refl, Bool, false, Option, none, some, List, [], ◌∷◌, ◌++◌, ◌==◌, arith,
  if◌then◌else◌,
}
use rpc_proxy.Buffers.{Slice, Buffers, return_slice}

-- The slices that a request holds: Request.DataOrig, Request.Data and Response.Data.
pub record Slices : Type 0 where
  pub data_orig : Option Slice
  pub payload : Option Slice
  pub response_data : Option Slice

-- `*new(uintptr)`, the address of no slice, where there is none
abbrev pub slice_id : Option Slice → Option ℕ
slice_id none = none
slice_id (some b) = some b.address

abbrev pub returned : Option Slice → Buffers → Buffers
returned none s = s
returned (some b) s = (return_slice b s).0

-- Recycle's first part: the slice that it returns for the request's message.
abbrev pub of_request : Slices → Option Slice
of_request q = elim q.data_orig [ some b ↦ some b | none ↦ q.payload ]

abbrev pub same_id : Option ℕ → ℕ → Bool
same_id none a = false
same_id (some i) a = i == a

-- Recycle's second part, with the slice that the first has returned.
abbrev pub of_response : Option ℕ → Option Slice → Option Slice
of_response id none = none
of_response id (some b) = if same_id id b.address then none else some b

-- Recycle
unfoldable pub recycle : Slices → Buffers → Buffers × Slices
recycle q s = (
  returned (of_response (slice_id (of_request q)) q.response_data) (returned (of_request q) s),
  record { data_orig = none; payload = none; response_data = none },
)

-- How often a piece of memory stands in a list of slices, and in the pool.
abbrev pub occurrences : ℕ → List Slice → ℕ
occurrences a [] = 0
occurrences a (b ∷ bs) = let rest = occurrences a bs in if b.address == a then suc rest else rest

abbrev pub pooled : ℕ → Buffers → ℕ
pooled a s = occurrences a s.memory_buffer_1024 + occurrences a s.memory_buffer_2048

occurrences-append :
    (a : ℕ) (b : Slice) (bs : List Slice) → occurrences a (bs ++ b ∷ []) ≡ occurrences a (b ∷ bs)
occurrences-append a b [] = refl
occurrences-append a b (c ∷ bs) = ground (arith, occurrences-append a b bs)

abbrev at_address : ℕ → Option Slice → ℕ
at_address a none = 0
at_address a (some b) = if b.address == a then 1 else 0

return_slice-pooled :
    (a : ℕ) (b : Slice) (s : Buffers)
    → pooled a (return_slice b s).0 ≤ pooled a s + at_address a (some b)
unfolding return_slice
return_slice-pooled a b s = ground (
  arith,
  occurrences-append a b s.memory_buffer_1024,
  occurrences-append a b s.memory_buffer_2048,
)

returned-pooled :
    (a : ℕ) (o : Option Slice) (s : Buffers) → pooled a (returned o s) ≤ pooled a s + at_address a o
returned-pooled a none s = omega arith
returned-pooled a (some b) s = return_slice-pooled a b s

apart :
    (a : ℕ) (o r : Option Slice) → at_address a o + at_address a (of_response (slice_id o) r) ≤ 1
apart a none none = omega arith
apart a none (some b) = ground arith
apart a (some c) none = ground arith
apart a (some c) (some b) = ground arith

of_response_at :
    (a : ℕ) (id : Option ℕ) (r : Option Slice) → at_address a (of_response id r) ≤ at_address a r
of_response_at a id none = omega arith
of_response_at a none (some b) = omega arith
of_response_at a (some i) (some b) = ground arith

-- Each piece of memory stands in the pool at most once, and not while one of these uses it.
pub record Apart (o r : Option Slice) (s : Buffers) : Type 0 where
  pub of_first : (a : ℕ) → pooled a s + at_address a o ≤ 1
  pub of_second : (a : ℕ) → pooled a s + at_address a r ≤ 1

-- Recycle: where each piece of memory stands in the pool at most once, and not while the request's
-- message or its answer lies in it, the same holds of the pool afterwards, even where message and
-- answer lie in one piece: nothing is given back twice. The request holds no slice any more.
pub recycle_once :
    (q : Slices) (s : Buffers)
    → Apart (of_request q) q.response_data s
    → ((a : ℕ) → pooled a (recycle q s).0 ≤ 1)
      × ((recycle q s).1 ≡ record { data_orig = none; payload = none; response_data = none })
unfolding recycle
recycle_once q s h = (
  λ a.
      let o = of_request q in
      let r = of_response (slice_id o) q.response_data in
      omega (
        arith,
        returned-pooled a o s,
        returned-pooled a r (returned o s),
        apart a o q.response_data,
        of_response_at a (slice_id o) q.response_data,
        h.of_first a,
        h.of_second a,
      ),
  refl,
)
