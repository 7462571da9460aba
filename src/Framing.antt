-- ===== src/Framing.antt =====
-- proxy/buffered_framed_transport.go: frames of a big-endian length and that many bytes.
-- The connection's writing half is `Sink` (bufio.Writer over thrift's transport), an argument of
-- the operations; its reading half is the bytes that still arrive and the error they end with.
-- The clock readings of `FlushTransport` and `needFlush` are the arguments `now` and `later`.
-- `ReadFrame` takes its buffer from the allocator of `Memory` and fills all of it, so a frame is
-- a list of bytes here.
pub mod Output
pub mod Input
pub mod RoundTrip
pub mod Safety
pub mod Flushing
pub mod Holding
pub mod Reading
mod Examples
use rpc_proxy.Prelude.{
  ℕ, ◌+◌, ◌-◌, ◌*◌, ◌/◌, ◌%◌, ◌^◌, Bool, true, false, ◌&&◌, ◌||◌, Option, none, some, List, [], ◌∷◌,
  ◌++◌, length, drop, ltb, leb, ◌==◌, if◌then◌else◌,
}
use rpc_proxy.Errors.{
  Error, transport, unexpected_frame_size, incorrect_frame_size, frame_header_read, frame_data_read,
  not_enough_frame, Result, ok, err,
}
use Output.{Sink}
use Input.{Stream, read_full}

abbrev pub default_max_length : ℕ
default_max_length = 16_384_000

-- binary.BigEndian.PutUint32 of uint32(n)
unfoldable pub put_uint32 : ℕ → List ℕ
put_uint32 n = (n / 16_777_216 % 256) ∷ (n / 65_536 % 256) ∷ (n / 256 % 256) ∷ (n % 256) ∷ []

-- binary.BigEndian.Uint32
unfoldable pub get_uint32 : List ℕ → ℕ
get_uint32 (a ∷ b ∷ c ∷ d ∷ _) = a * 16_777_216 + b * 65_536 + c * 256 + d
get_uint32 _ = 0

pub record Transport (W : Type 0) : Type 0 where
  pub frame_size : ℕ
  pub buffer : List ℕ
  pub max_length : ℕ
  pub max_buffered : ℕ
  pub max_interval : ℕ
  pub nbuffered : ℕ
  pub lastflush : ℕ
  pub reader : Stream
  pub writer : W

module _ {W : Type 0} where
  -- NewTBufferedFramedTransportMaxLength
  pub new_max_length : Stream → W → ℕ → ℕ → ℕ → Transport W
  new_max_length r w max_interval max_buffered max_length = record {
    frame_size = 0;
    buffer = [];
    max_length = max_length;
    max_buffered = max_buffered;
    max_interval = max_interval;
    nbuffered = 0;
    lastflush = 0;
    reader = r;
    writer = w;
  }

  -- NewTBufferedFramedTransport
  pub new : Stream → W → ℕ → ℕ → Transport W
  unfolding new_max_length
  new r w max_interval max_buffered =
      new_max_length r w max_interval max_buffered default_max_length

  abbrev check_size : Transport W → ℕ → Result ℕ
  check_size p size = if ltb p.max_length size then err (incorrect_frame_size size) else ok size

  -- readFrameHeader, once the four bytes have been asked for
  parse_header : Transport W → Result (List ℕ) × Stream → Result ℕ × Transport W
  parse_header p (err e, s) = (err e, record p { reader = s })
  parse_header p (ok buf, s) = (check_size p (get_uint32 buf), record p { reader = s })

  pub read_frame_header : Transport W → Result ℕ × Transport W
  read_frame_header p = parse_header p (read_full 4 p.reader)

  -- ReadFrame, once the data has been asked for
  take_data : Transport W → Result (List ℕ) × Stream → Result (List ℕ) × Transport W
  take_data p (err e, s) = (err (frame_data_read e), record p { reader = s })
  take_data p (ok bytes, s) = (ok bytes, record p { reader = s })

  -- ReadFrame, once the header has been read
  read_data : Result ℕ × Transport W → Result (List ℕ) × Transport W
  read_data (err e, p) = (err (frame_header_read e), p)
  read_data (ok frame_size, p) = take_data p (read_full frame_size p.reader)

  pub read_frame : Transport W → Result (List ℕ) × Transport W
  read_frame p =
      if p.frame_size == 0
      then read_data (read_frame_header p)
      else (err (unexpected_frame_size p.frame_size), p)

  -- ReadByte, once the frame size is known
  take_byte : Transport W → Result (List ℕ) × Stream → Result ℕ × Transport W
  take_byte p (err e, s) = (err e, record p { reader = s })
  take_byte p (ok [], s) = (err (not_enough_frame p.frame_size), record p { reader = s })
  take_byte p (ok (c ∷ _), s) = (ok c, record p { reader = s; frame_size = p.frame_size - 1 })

  read_in_frame : Result ℕ × Transport W → Result ℕ × Transport W
  read_in_frame (err e, p) = (err e, record p { frame_size = 0 })
  read_in_frame (ok size, p) =
      let q = record p { frame_size = size } in
      if ltb size 1 then (err (not_enough_frame size), q) else take_byte q (read_full 1 q.reader)

  -- `c, err = p.Reader.ReadByte()` reads one byte, as `read_full 1` does.
  pub read_byte : Transport W → Result ℕ × Transport W
  read_byte p =
      if p.frame_size == 0
      then read_in_frame (read_frame_header p)
      else read_in_frame (ok p.frame_size, p)

  -- Write: bytes.Buffer takes everything.
  unfoldable pub write : Transport W → List ℕ → Transport W × ℕ × Option Error
  write p buf = (record p { buffer = p.buffer ++ buf }, length buf, none)

  unfoldable pub need_flush : Transport W → ℕ → Bool
  need_flush p now =
      if p.nbuffered == 0
      then false
      else leb p.max_buffered p.nbuffered || ltb p.max_interval (now - p.lastflush)

module _ (k : Sink) where
  open k use {W}

  -- FlushTransport, once the writer has been flushed
  unfoldable pub flushed : Transport W → ℕ → W × Option Error → Transport W × Option Error
  flushed p later (w, some e) = (record p { writer = w }, some e)
  flushed p later (w, none) = (record p { writer = w; nbuffered = 0; lastflush = later }, none)

  unfoldable pub flush_transport : Transport W → Bool → ℕ → ℕ → Transport W × Option Error
  flush_transport p force now later =
      if ltb 0 p.nbuffered && (force || need_flush p now)
      then flushed p later (k.flush p.writer)
      else (p, none)

  -- FlushBuffer, once the data has been written
  unfoldable pub data_written :
      Transport W → Bool → ℕ → ℕ → W × ℕ × Option Error → Transport W × Option Error
  data_written p force now later (w, n, some e) =
      (record p { writer = w; buffer = drop n p.buffer }, some (transport e))
  data_written p force now later (w, n, none) =
      flush_transport (record p { writer = w; buffer = []; nbuffered = p.nbuffered + 1 }) force now
        later

  -- FlushBuffer, once the length has been written
  unfoldable pub length_written :
      Transport W → Bool → ℕ → ℕ → W × ℕ × Option Error → Transport W × Option Error
  length_written p force now later (w, n, some e) = (record p { writer = w }, some (transport e))
  length_written p force now later (w, n, none) =
      if ltb 0 (length p.buffer)
      then data_written p force now later (k.write w p.buffer)
      else data_written p force now later (w, 0, none)

  unfoldable pub flush_buffer : Transport W → Bool → ℕ → ℕ → Transport W × Option Error
  flush_buffer p force now later =
      length_written p force now later (k.write p.writer (put_uint32 (length p.buffer)))

  -- Flush
  pub flush : Transport W → ℕ → ℕ → Transport W × Option Error
  flush p now later = flush_buffer p true now later
