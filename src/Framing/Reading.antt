-- ===== src/Framing/Reading.antt =====
-- Read of proxy/buffered_framed_transport.go, thrift's way to read a frame in pieces, and the small writes
-- beside Write. bufio.Reader.Read answers what it has in its buffer, at least one byte and at most as
-- many as are asked for: how many more it has is an argument for each call. Where Read has taken more
-- than the frame has, FrameSize is negative and Read answers an error; that end is `none` here.
use rpc_proxy.Prelude.{
  ℕ, zero, suc, ◌-◌, ◌≤◌, ◌<◌, ◌≡◌, refl, ap, ◌∙◌, min, Option, none, some, List, [], ◌∷◌, ◌++◌,
  length, take, drop, ltb, ◌==◌, if◌then◌else◌, arith, Bool-cases, ltb→lt, inl, inr, length-append,
  length-take, length-drop,
}
use rpc_proxy.Errors.{Error, transport, not_enough_frame, Result, ok, err}
use rpc_proxy.Framing.{Transport, read_frame_header}
use rpc_proxy.Framing.Input.{Stream}

-- What Read answers: the bytes, and an error.
pub record Got : Type 0 where
  pub bytes : List ℕ
  pub error : Option Error

-- bufio.Reader.Read into n bytes
unfoldable pub read_some : ℕ → ℕ → Stream → Got × Stream
read_some more n s =
    let k = min n (suc more) in
    if n == 0
    then (record { bytes = []; error = none }, s)
    else if length s.bytes == 0
    then (record { bytes = []; error = some s.end }, s)
    else (record { bytes = take k s.bytes; error = none }, record s { bytes = drop k s.bytes })

take_front : (k : ℕ) (xs rest : List ℕ) → k ≤ length xs → take k (xs ++ rest) ≡ take k xs
take_front zero xs rest h = refl
take_front (suc k) [] rest h = absurd (omega arith)
take_front (suc k) (x ∷ xs) rest h = ap (◌∷◌ x) (take_front k xs rest (omega arith))

drop_front : (k : ℕ) (xs rest : List ℕ) → k ≤ length xs → drop k (xs ++ rest) ≡ drop k xs ++ rest
drop_front zero xs rest h = refl
drop_front (suc k) [] rest h = absurd (omega arith)
drop_front (suc k) (x ∷ xs) rest h = drop_front k xs rest (omega arith)

abbrev wrap : Option Error → Option Error
wrap none = none
wrap (some e) = some (transport e)

module _ {W : Type 0} where
  -- Step 3 of Read
  abbrev pub rest_read : Transport W → Got × Stream → Option (Got × Transport W)
  rest_read p (g, s) =
      if ltb p.frame_size (length g.bytes)
      then none
      else some (
        record { bytes = g.bytes; error = wrap g.error },
        record p { reader = s; frame_size = p.frame_size - length g.bytes },
      )

  unfoldable pub read_rest : ℕ → ℕ → Transport W → Option (Got × Transport W)
  read_rest more n p = rest_read p (read_some more n p.reader)

  -- Step 1: the header of the next frame, where none is under way
  abbrev pub with_header :
      (Transport W → Option (Got × Transport W))
      → Result ℕ × Transport W
      → Option (Got × Transport W)
  with_header go (err e, p) =
      some (record { bytes = []; error = some e }, record p { frame_size = 0 })
  with_header go (ok size, p) = go (record p { frame_size = size })

  abbrev pub in_frame :
      (Transport W → Option (Got × Transport W)) → Transport W → Option (Got × Transport W)
  in_frame go p = if p.frame_size == 0 then with_header go (read_frame_header p) else go p

  -- Step 2, once the call of Read for the rest of the frame has answered
  abbrev pub cut_off : ℕ → ℕ → ℕ → Option (Got × Transport W) → Option (Got × Transport W)
  cut_off size again n none = none
  cut_off size again n (some (g, p)) = elim g.error [
    | none ↦ some (record g { error = some (transport (not_enough_frame size)) }, p)
    | some e ↦ read_rest again n p
  ]

  -- Read into n bytes. The call within asks for no more than the frame has, so that it does not come
  -- to step 2 itself.
  abbrev pub size_known : ℕ → ℕ → ℕ → Transport W → ℕ → Option (Got × Transport W)
  size_known more again n p size =
      if ltb size n
      then cut_off size again n (in_frame (read_rest more size) p)
      else read_rest more n p

  abbrev pub framed : ℕ → ℕ → ℕ → Transport W → Option (Got × Transport W)
  framed more again n p = size_known more again n p p.frame_size

  unfoldable pub read : ℕ → ℕ → ℕ → Transport W → Option (Got × Transport W)
  read more again n p = in_frame (framed more again n) p

  -- WriteByte and WriteString
  unfoldable pub write_byte : Transport W → ℕ → Transport W × Option Error
  write_byte p c = (record p { buffer = p.buffer ++ c ∷ [] }, none)

  unfoldable pub write_string : Transport W → List ℕ → Transport W × ℕ × Option Error
  write_string p s = (record p { buffer = p.buffer ++ s }, length s, none)

  -- A frame is under way: xs is what is left of it, and rest what comes behind it.
  pub record Within (xs rest : List ℕ) (p : Transport W) : Type 0 where
    pub left : p.frame_size ≡ length xs
    pub arrives : p.reader.bytes ≡ xs ++ rest

  -- A call of bufio's Read for at most the rest of the frame: it gives its next bytes, at least one.
  read_rest-Within :
      (more n : ℕ) (xs rest : List ℕ) (p : Transport W)
      → 0 < n
      → n ≤ length xs
      → Within xs rest p
      → (k : ℕ) × (t : Transport W) × (0 < k)
        × (k ≤ n)
        × (read_rest more n p ≡ some (record { bytes = take k xs; error = none }, t))
        × Within (drop k xs) rest t
  unfolding read_rest read_some
  read_rest-Within more n xs rest p pos fits w =
      let k = min n (suc more) in
      let front : take k p.reader.bytes ≡ take k xs =
        ap (take k) w.arrives ∙ take_front k xs rest (omega arith) in
      let behind : drop k p.reader.bytes ≡ drop k xs ++ rest =
        ap (drop k) w.arrives ∙ drop_front k xs rest (omega arith) in
      let t = record p {
        reader = record p.reader { bytes = drop k p.reader.bytes };
        frame_size = p.frame_size - k;
      } in
      (
        k,
        t,
        omega arith,
        omega arith,
        ground (
          arith,
          front,
          pos,
          ap length w.arrives,
          length-append xs rest,
          length-take k xs,
          w.left,
        ),
        record { left = omega (arith, length-drop k xs, w.left); arrives = behind },
      )

  under_way :
      (go : Transport W → Option (Got × Transport W)) (p : Transport W)
      → 0 < p.frame_size
      → in_frame go p ≡ go p
  under_way go p h = ground (arith, h)

  -- Read while a frame is under way whose bytes are there or on their way: it does not end with a negative
  -- size, it gives the next bytes of the frame, at least one and no more than asked for, and what is
  -- left of the frame, and what comes behind it, is what the next call finds: no call reads beyond
  -- the frame. There is an error exactly if more is asked for than the frame has left, and these
  -- bytes are given all the same.
  pub read-Within :
      (more again n : ℕ) (xs rest : List ℕ) (p : Transport W)
      → 0 < n
      → 0 < length xs
      → Within xs rest p
      → (k : ℕ) × (t : Transport W) × (0 < k)
        × (k ≤ n)
        × (read more again n p
            ≡ some (
              record {
                bytes = take k xs;
                error =
                    if ltb (length xs) n
                    then some (transport (not_enough_frame (length xs)))
                    else none;
              },
              t,
            ))
        × Within (drop k xs) rest t
  unfolding read
  read-Within more again n xs rest p pos some_left w =
      let going : 0 < p.frame_size = omega (arith, w.left, some_left) in
      elim (Bool-cases (ltb (length xs) n)) [
        | inr fits ↦
            let (k, t, one, few, go, v) =
              read_rest-Within more n xs rest p pos (ground (arith, fits)) w in
            (
              k,
              t,
              one,
              few,
              under_way (framed more again n) p going ∙ ground (arith, w.left, fits, go),
              v,
            )
        | inl short ↦
            let (k, t, one, few, go, v) =
              read_rest-Within more (length xs) xs rest p some_left (omega arith) w in
            let inner = under_way (read_rest more (length xs)) p going ∙ go in
            (
              k,
              t,
              one,
              omega (arith, few, ltb→lt (length xs) n short),
              under_way (framed more again n) p going
                  ∙ ap (size_known more again n p) w.left
                  ∙ rw short (ap (cut_off (length xs) again n) inner),
              v,
            )
      ]
