-- ===== src/Framing/Examples.antt =====
-- proxy/buffered_framed_transport.go on concrete frames.
use rpc_proxy.Prelude.{
  ℕ, ◌<◌, ◌≤◌, ◌≡◌, refl, true, false, none, some, drop, take, if◌then◌else◌, ltb, List, [], ◌∷◌,
  ◌++◌, length, arith,
}
use rpc_proxy.Errors.{transport, not_enough_frame, eof, frame_header_read, unexpected_eof, err}
use rpc_proxy.Framing.{
  Transport, new, new_max_length, put_uint32, get_uint32, flush_buffer, length_written,
  data_written, flush_transport, flushed, need_flush, read_frame, read_frame_header, read_data,
  take_data, parse_header,
}
use rpc_proxy.Framing.Output.{memory, Memory}
use rpc_proxy.Framing.Input.{read_full}
use rpc_proxy.Framing.Reading.{Within, read, read-Within}
use rpc_proxy.Framing.RoundTrip.{frame, frames, read_frames, with_input, read_frames-frames}
use rpc_proxy.Framing.Safety.{read_frame_ok}
use rpc_proxy.Framing.Flushing.{flush_buffer-appends, flush_buffer-sends}
use rpc_proxy.Framing.Holding.{Holding, Holds, flush_buffer-bounded}

abbrev idle : Transport Memory
unfolding new new_max_length
idle = new (record { bytes = []; end = eof }) (record { held = []; gone = [] }) 100_000 20

abbrev hello : List ℕ
hello = b'h' ∷ b'e' ∷ b'y' ∷ []

abbrev loaded : Transport Memory
loaded = record idle { buffer = hello }

frame_runs : frame hello ≡ 0 ∷ 0 ∷ 0 ∷ 3 ∷ hello
unfolding put_uint32
frame_runs = refl

flush_waits : (flush_buffer memory loaded false 50 60).0.writer.held ≡ frame hello
unfolding flush_buffer length_written data_written flush_transport flushed need_flush new
    new_max_length
flush_waits = refl

read_frame_cut :
    (read_frame (with_input idle (0 ∷ 0 ∷ []) eof)).0 ≡ err (frame_header_read unexpected_eof)
unfolding read_frame read_data read_frame_header parse_header read_full new new_max_length
read_frame_cut = refl

read_frames-frames_example :
    read_frames 2 (with_input idle (frames (hello ∷ [] ∷ []) ++ 7 ∷ []) eof)
    ≡ (hello ∷ [] ∷ [], with_input idle (7 ∷ []) eof)
unfolding new new_max_length
read_frames-frames_example =
    read_frames-frames idle (hello ∷ [] ∷ []) (7 ∷ []) eof refl (omega arith) (omega arith)

flush_buffer-appends_test :
    let q = (flush_buffer memory loaded false 50 60).0 in
    (memory.accepted q.writer ≡ memory.accepted loaded.writer ++ frame hello) × (q.buffer ≡ [])
unfolding new new_max_length flush_buffer length_written data_written flush_transport flushed
    need_flush
flush_buffer-appends_test = flush_buffer-appends memory loaded false 50 60 refl

loaded-Holding : Holding memory loaded
unfolding new new_max_length frames
loaded-Holding = ([], [], record { given = refl; gone = ([], refl); counted = refl })

flush_buffer-bounded_example :
    (before : List ℕ) × (fs : List (List ℕ)) × Holds memory
      (flush_buffer memory loaded false 50 60).0
      before
      fs
    × (length fs < 20)
unfolding new new_max_length flush_buffer length_written data_written flush_transport flushed
    need_flush
flush_buffer-bounded_example =
    flush_buffer-bounded memory loaded false 50 60 loaded-Holding (omega arith) refl

flush_buffer-sends_example :
    memory.sent (flush_buffer memory loaded true 50 60).0.writer
    ≡ memory.accepted loaded.writer ++ frame hello
unfolding new new_max_length flush_buffer length_written data_written flush_transport flushed
    need_flush
flush_buffer-sends_example = flush_buffer-sends memory loaded 50 60 refl

abbrev arriving : Transport Memory
arriving = with_input idle (0 ∷ 0 ∷ 0 ∷ 1 ∷ 9 ∷ 8 ∷ []) eof

read_frame_ok_example :
    (header : List ℕ) × (0 ∷ 0 ∷ 0 ∷ 1 ∷ 9 ∷ 8 ∷ [] ≡ header ++ (9 ∷ 8 ∷ []))
    × (length header ≡ 4)
    × (get_uint32 header ≡ 1)
    × (1 ≤ 16_384_000)
unfolding read_frame read_data read_frame_header parse_header take_data read_full new new_max_length
    get_uint32
read_frame_ok_example = read_frame_ok arriving (with_input idle (8 ∷ []) eof) (9 ∷ []) refl

-- Three bytes of a frame are left, and the next frame's first byte is there.
abbrev midway : Transport Memory
midway = record idle { frame_size = 3; reader = record { bytes = hello ++ 7 ∷ []; end = eof } }

midway-Within : Within hello (7 ∷ []) midway
midway-Within = record { left = refl; arrives = refl }

read-Within_example :
    (k : ℕ) × (t : Transport Memory) × (0 < k)
    × (k ≤ 5)
    × (read 1 9 5 midway
        ≡ some (
          record {
            bytes = take k hello;
            error = if ltb 3 5 then some (transport (not_enough_frame 3)) else none;
          },
          t,
        ))
    × Within (drop k hello) (7 ∷ []) t
read-Within_example =
    read-Within 1 9 5 hello (7 ∷ []) midway (omega arith) (omega arith) midway-Within
