-- ===== src/Buffers/Reuse.antt =====
-- The pool gives out slices that are as long and as large as asked for.
use rpc_proxy.Prelude.{
  ℕ, ◌+◌, ◌≤◌, ◌≡◌, refl, some, List, [], ◌∷◌, ◌++◌, ltb, ◌==◌, length, arith, Bool-cases, inl, inr,
  subst, ==_iff,
}
use rpc_proxy.Buffers.{
  Slice, Buffers, get_slice, return_slice, init_slice, take_1024, take_2048, make,
  default_slice_len, pool_capacity,
}

abbrev AllOfCap : ℕ → List Slice → Type 0
AllOfCap n [] = Unit {0}
AllOfCap n (b ∷ bs) = (b.cap ≡ n) × AllOfCap n bs

-- Each channel holds slices of its own capacity, and no more than it has room for.
pub record WellFormed (s : Buffers) : Type 0 where
  pub small : AllOfCap 1024 s.memory_buffer_1024
  pub large : AllOfCap 2048 s.memory_buffer_2048
  pub small_room : length s.memory_buffer_1024 ≤ 1000
  pub large_room : length s.memory_buffer_2048 ≤ 1000

-- What getSlice gives: a slice of the length and at least the capacity asked for.
abbrev pub Fits : ℕ → ℕ → Buffers × Slice → Type 0
Fits init_size capacity (t, b) = WellFormed t × (b.len ≡ init_size) × (capacity ≤ b.cap)

init_slice_lem : (b : Slice) (n : ℕ) → ((init_slice b n).len ≡ n) × ((init_slice b n).cap ≡ b.cap)
unfolding init_slice
init_slice_lem b n = ground arith

take_1024-Fits :
    (i c : ℕ) (s : Buffers) (bs : List Slice)
    → WellFormed s
    → s.memory_buffer_1024 ≡ bs
    → c ≤ 1024
    → Fits i c (take_1024 i s bs)
take_1024-Fits i c s [] w e le = (
  record { small = w.small; large = w.large; small_room = w.small_room; large_room = w.large_room },
  refl,
  le,
)
take_1024-Fits i c s (b ∷ bs) w e le =
    let small : AllOfCap 1024 (b ∷ bs) = subst (AllOfCap 1024) e w.small in
    let room : length (b ∷ bs) ≤ 1000 = subst (λ l. length l ≤ 1000) e w.small_room in
    let (a, d) = init_slice_lem b i in
    (
      record {
        small = small.1;
        large = w.large;
        small_room = omega (arith, room);
        large_room = w.large_room;
      },
      a,
      omega (arith, le, small.0, d),
    )

take_2048-Fits :
    (i c : ℕ) (s : Buffers) (bs : List Slice)
    → WellFormed s
    → s.memory_buffer_2048 ≡ bs
    → c ≤ 2048
    → Fits i c (take_2048 i s bs)
take_2048-Fits i c s [] w e le = (
  record { small = w.small; large = w.large; small_room = w.small_room; large_room = w.large_room },
  refl,
  le,
)
take_2048-Fits i c s (b ∷ bs) w e le =
    let large : AllOfCap 2048 (b ∷ bs) = subst (AllOfCap 2048) e w.large in
    let room : length (b ∷ bs) ≤ 1000 = subst (λ l. length l ≤ 1000) e w.large_room in
    let (a, d) = init_slice_lem b i in
    (
      record {
        small = w.small;
        large = large.1;
        small_room = w.small_room;
        large_room = omega (arith, room);
      },
      a,
      omega (arith, le, large.0, d),
    )

-- getSlice with a length within the capacity does not panic, gives a slice of that length and of at
-- least that capacity, and keeps the channels well-formed.
pub get_slice-Fits :
    (init_size capacity : ℕ) (s : Buffers)
    → WellFormed s
    → init_size ≤ capacity
    → (t : Buffers) × (b : Slice) × (get_slice init_size capacity s ≡ some (t, b))
      × Fits init_size capacity (t, b)
unfolding get_slice
get_slice-Fits i c s w le = elim (Bool-cases (ltb c default_slice_len)) [
  | inl tiny ↦
      let (t, b) = take_1024 i s s.memory_buffer_1024 in
      (t, b, ground (arith, tiny), take_1024-Fits i c s s.memory_buffer_1024 w refl (ground arith))
  | inr not_tiny ↦ elim (Bool-cases (ltb c 2048)) [
    | inl mid ↦
        let (t, b) = take_2048 i s s.memory_buffer_2048 in
        (t, b, ground (arith, mid), take_2048-Fits i c s s.memory_buffer_2048 w refl (ground arith))
    | inr big ↦
        let (t, b) = make i c s in
        (
          t,
          b,
          ground (arith, big),
          (
            record {
              small = w.small;
              large = w.large;
              small_room = w.small_room;
              large_room = w.large_room;
            },
            refl,
            omega arith,
          ),
        )
  ]
]

append-AllOfCap :
    (n : ℕ) (bs : List Slice) (b : Slice) → AllOfCap n bs → b.cap ≡ n → AllOfCap n (bs ++ b ∷ [])
append-AllOfCap n [] b all e = (e, tt)
append-AllOfCap n (c ∷ bs) b all e = (all.0, append-AllOfCap n bs b all.1 e)

length-append_one : (bs : List Slice) (b : Slice) → length (bs ++ b ∷ []) ≡ length bs + 1
length-append_one [] b = refl
length-append_one (c ∷ bs) b = omega (arith, length-append_one bs b)

-- returnSlice keeps the channels well-formed, whatever slice comes back.
pub return_slice-WellFormed :
    (b : Slice) (s : Buffers) → WellFormed s → WellFormed (return_slice b s).0
unfolding return_slice
return_slice-WellFormed b s w = elim (Bool-cases (b.cap == 1024)) [
  | inl small ↦ elim (Bool-cases (ltb (length s.memory_buffer_1024) pool_capacity)) [
    | inl room ↦
        rw (small, room)
          (record {
            small = append-AllOfCap 1024 s.memory_buffer_1024 b w.small ((==_iff _ _).0 small);
            large = w.large;
            small_room = ground (arith, length-append_one s.memory_buffer_1024 b);
            large_room = w.large_room;
          })
    | inr full ↦ rw (small, full) w
  ]
  | inr other ↦ elim (Bool-cases (b.cap == 2048)) [
    | inl large ↦ elim (Bool-cases (ltb (length s.memory_buffer_2048) pool_capacity)) [
      | inl room ↦
          rw (other, large, room)
            (record {
              small = w.small;
              large = append-AllOfCap 2048 s.memory_buffer_2048 b w.large ((==_iff _ _).0 large);
              small_room = w.small_room;
              large_room = ground (arith, length-append_one s.memory_buffer_2048 b);
            })
      | inr full ↦ rw (other, large, full) w
    ]
    | inr neither ↦ rw (other, neither) w
  ]
]
