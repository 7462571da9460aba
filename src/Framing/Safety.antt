-- ===== src/Framing/Safety.antt =====
-- What every ReadFrame does, whatever arrives.
use rpc_proxy.Prelude.{
  ℕ, ◌≤◌, ◌≡◌, refl, ◌∙◌, List, ◌++◌, length, arith, Bool-cases, inl, inr, ◌==◌, take-append-drop,
  length-take, ap,
}
use rpc_proxy.Errors.{Result, ok, err}
use rpc_proxy.Framing.{
  Transport, get_uint32, read_frame, read_frame_header, read_data, take_data, parse_header,
}
use rpc_proxy.Framing.Input.{Stream, read_full}

-- What io.ReadFull returns is a prefix of the stream, of the length asked for.
read_full_ok :
    (n : ℕ) (s s' : Stream) (bs : List ℕ)
    → read_full n s ≡ (ok bs, s')
    → (s.bytes ≡ bs ++ s'.bytes) × (length bs ≡ n)
unfolding read_full
read_full_ok n s s' bs h = ground (arith, take-append-drop {0} n s.bytes, length-take {0} n s.bytes)

module _ {W : Type 0} where
  take_data_ok :
      (p q : Transport W) (n : ℕ) (bs : List ℕ) (r : Result (List ℕ) × Stream)
      → read_full n p.reader ≡ r
      → take_data p r ≡ (ok bs, q)
      → (p.reader.bytes ≡ bs ++ q.reader.bytes) × (length bs ≡ n)
  unfolding take_data
  take_data_ok p q n bs (err e, s) d h = cc
  take_data_ok p q n bs (ok got, s) d h = ground (arith, read_full_ok n p.reader s got d)

  -- The header that was read, and how it bounds the frame.
  abbrev Header : Transport W → Transport W → ℕ → Type 0
  Header p q n =
      (header : List ℕ) × (p.reader.bytes ≡ header ++ q.reader.bytes)
      × (length header ≡ 4)
      × (get_uint32 header ≡ n)
      × (n ≤ p.max_length)

  parse_header_ok :
      (p q : Transport W) (n : ℕ) (r : Result (List ℕ) × Stream)
      → read_full 4 p.reader ≡ r
      → parse_header p r ≡ (ok n, q)
      → Header p q n
  unfolding parse_header
  parse_header_ok p q n (err e, s) d h = cc
  parse_header_ok p q n (ok got, s) d h =
      let (cut, four) = read_full_ok 4 p.reader s got d in
      (got, ground arith, four, ground arith, ground arith)

  read_data_ok :
      (p q : Transport W) (bs : List ℕ) (r : Result ℕ × Transport W)
      → read_frame_header p ≡ r
      → read_data r ≡ (ok bs, q)
      → (header : List ℕ) × (p.reader.bytes ≡ header ++ (bs ++ q.reader.bytes))
        × (length header ≡ 4)
        × (get_uint32 header ≡ length bs)
        × (length bs ≤ p.max_length)
  unfolding read_data read_frame_header
  read_data_ok p q bs (err e, m) d h = cc
  read_data_ok p q bs (ok n, m) d h =
      let (header, cut, four, size, small) = parse_header_ok p m n (read_full 4 p.reader) refl d in
      let (data_cut, whole) = take_data_ok m q n bs (read_full n m.reader) refl h in
      (header, cut ∙ ap (◌++◌ header) data_cut, four, omega arith, omega arith)

  -- A frame that ReadFrame returns is at most `max_length` bytes long and is exactly what follows
  -- its four-byte length on the connection; the next read goes on behind it.
  pub read_frame_ok :
      (p q : Transport W) (bs : List ℕ)
      → read_frame p ≡ (ok bs, q)
      → (header : List ℕ) × (p.reader.bytes ≡ header ++ (bs ++ q.reader.bytes))
        × (length header ≡ 4)
        × (get_uint32 header ≡ length bs)
        × (length bs ≤ p.max_length)
  unfolding read_frame
  read_frame_ok p q bs h = elim (Bool-cases (p.frame_size == 0)) [
    | inl ready ↦ read_data_ok p q bs (read_frame_header p) refl (rw ready at h)
    | inr busy ↦ absurd (cc (rw busy at h))
  ]
