-- ===== src/Framing/RoundTrip.antt =====
-- What FlushBuffer puts on the connection, ReadFrame gives back on the other side.
use mathlib.Core.List.{append_assoc}
use rpc_proxy.Prelude.{
  ℕ, zero, suc, ◌≤◌, ◌<◌, ◌≡◌, refl, List, [], ◌∷◌, ◌++◌, length, arith, le→ltb,
}
use rpc_proxy.Errors.{Error, Result, ok, err}
use rpc_proxy.Framing.{
  Transport, put_uint32, get_uint32, read_frame, read_frame_header, read_data, take_data,
  parse_header,
}
use rpc_proxy.Framing.Input.{read_full-append}

-- A frame: the length, then the data.
abbrev pub frame : List ℕ → List ℕ
frame bs = put_uint32 (length bs) ++ bs

-- the big-endian length is read back as it was written
pub get_uint32-put_uint32 : (n : ℕ) → n < 4_294_967_296 → get_uint32 (put_uint32 n) ≡ n
unfolding put_uint32 get_uint32
get_uint32-put_uint32 n h = omega arith

pub length-put_uint32 : (n : ℕ) → length (put_uint32 n) ≡ 4
unfolding put_uint32
length-put_uint32 n = refl

module _ {W : Type 0} where
  abbrev pub with_input : Transport W → List ℕ → Error → Transport W
  with_input p bs e = record p { reader = record { bytes = bs; end = e } }

  -- the header of a frame within the limit yields the frame's length
  read_frame_header-frame :
      (p : Transport W) (bs rest : List ℕ) (e : Error)
      → length bs ≤ p.max_length
      → p.max_length < 4_294_967_296
      → read_frame_header (with_input p (frame bs ++ rest) e)
        ≡ (ok (length bs), with_input p (bs ++ rest) e)
  unfolding read_frame_header parse_header
  read_frame_header-frame p bs rest e small fits = rw (
    append_assoc (put_uint32 (length bs)) bs rest,
    read_full-append 4 (put_uint32 (length bs)) (bs ++ rest) e (length-put_uint32 (length bs)),
    get_uint32-put_uint32 (length bs) (omega arith),
    le→ltb p.max_length (length bs) small,
  )

  read_frame_ready :
      (p : Transport W) → p.frame_size ≡ 0 → read_frame p ≡ read_data (read_frame_header p)
  unfolding read_frame
  read_frame_ready p ready = ground arith

  -- ReadFrame on a connection that carries a frame of at most `max_length` bytes returns the data
  -- of the frame, and leaves what follows it.
  pub read_frame-frame :
      (p : Transport W) (bs rest : List ℕ) (e : Error)
      → p.frame_size ≡ 0
      → length bs ≤ p.max_length
      → p.max_length < 4_294_967_296
      → read_frame (with_input p (frame bs ++ rest) e) ≡ (ok bs, with_input p rest e)
  unfolding read_data take_data
  read_frame-frame p bs rest e ready small fits = rw (
    read_frame_ready (with_input p (frame bs ++ rest) e) ready,
    read_frame_header-frame p bs rest e small fits,
    read_full-append (length bs) bs rest e refl,
  )

-- The bytes of several frames, one behind the other.
unfoldable pub frames : List (List ℕ) → List ℕ
frames [] = []
frames (bs ∷ bss) = frame bs ++ frames bss

abbrev pub AllWithin : ℕ → List (List ℕ) → Type 0
AllWithin n [] = Unit {0}
AllWithin n (bs ∷ bss) = (length bs ≤ n) × AllWithin n bss

module _ {W : Type 0} where
  abbrev collect :
      Result (List ℕ) × Transport W
      → (Transport W → List (List ℕ) × Transport W)
      → List (List ℕ) × Transport W
  collect (err e, q) rest = ([], q)
  collect (ok bs, q) rest = let (bss, r) = rest q in (bs ∷ bss, r)

  -- ReadFrame called at most n times, as a reader's loop does, up to the first error.
  pub read_frames : ℕ → Transport W → List (List ℕ) × Transport W
  read_frames zero p = ([], p)
  read_frames (suc n) p = collect (read_frame p) (read_frames n)

  -- A reader gets the data of the frames on its connection, in order, and no byte of what follows.
  pub read_frames-frames :
      (p : Transport W) (bss : List (List ℕ)) (rest : List ℕ) (e : Error)
      → p.frame_size ≡ 0
      → p.max_length < 4_294_967_296
      → AllWithin p.max_length bss
      → read_frames (length bss) (with_input p (frames bss ++ rest) e) ≡ (bss, with_input p rest e)
  unfolding read_frames frames
  read_frames-frames p [] rest e ready fits small = refl
  read_frames-frames p (bs ∷ bss) rest e ready fits small = rw (
    append_assoc (frame bs) (frames bss) rest,
    read_frame-frame p bs (frames bss ++ rest) e ready small.0 fits,
    read_frames-frames p bss rest e ready fits small.1,
  )
