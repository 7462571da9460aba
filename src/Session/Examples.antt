-- ===== src/Session/Examples.antt =====
-- A client that sends two calls and gets one answer and one exception.
use rpc_proxy.Prelude.{ℕ, ◌+◌, ◌≡◌, refl, Option, none, some, List, [], ◌∷◌, ◌++◌, arith}
use rpc_proxy.Errors.{Error, eof, hb_timeout}
use rpc_proxy.Framing
use rpc_proxy.Framing.{
  Transport, flush_buffer, length_written, data_written, flush_transport, flushed, need_flush,
  put_uint32,
}
use rpc_proxy.Framing.Output.{memory, Memory}
use rpc_proxy.Framing.RoundTrip.{frames}
use rpc_proxy.Thrift.Binary.{binary, write}
use rpc_proxy.Request.{Request, blank, bytes_of}
use rpc_proxy.Exceptions.{Exceptions, get_thrift_exception}
use rpc_proxy.Session.{
  Session, Dispatcher, loop_reader, loop_writer, handle_response, write_back, converted,
}
use rpc_proxy.Session.Order.{InOrder, incoming, loop_reader-frames}
use rpc_proxy.Session.Answers.{replies, loop_writer-returns, loop_writer-frames, exception_answered}

abbrev pub quiet_client : Session Memory
quiet_client = record {
  transport = record {
    frame_size = 0;
    buffer = [];
    max_length = 16_384_000;
    max_buffered = 20;
    max_interval = 100_000;
    nbuffered = 0;
    lastflush = 0;
    reader = record { bytes = []; end = eof };
    writer = record { held = []; gone = [] };
  };
  ops = 0;
  last_op_unix = 0;
  last_request_time = none;
}

-- A dispatcher that counts the requests.
abbrev pub counting : Dispatcher ℕ
counting r n = (n + 1, record r { start = n }, none)

abbrev calls : List (List ℕ)
calls = write (b'a' ∷ []) 1 7 ∷ write (b'b' ∷ []) 1 8 ∷ []

loop_reader-frames_example :
    InOrder binary counting quiet_client 0 calls
      (9 ∷ [])
      eof
      (loop_reader binary counting 2 50 (incoming quiet_client (frames calls ++ 9 ∷ []) eof) 0)
unfolding put_uint32
loop_reader-frames_example =
    loop_reader-frames binary counting 50 quiet_client 0 calls (9 ∷ []) eof (λ r d. refl) refl
      (omega arith) (omega arith, (omega arith, tt))

abbrev pub plain : Exceptions
plain = record { write_exception = λ kind msg. kind ∷ msg; show = λ e. [] }

abbrev answered_task : Request
answered_task = record blank { wait = some 0; response_data = some (5 ∷ []) }

abbrev failed_task : Request
failed_task = record blank {
  service = b'g' ∷ [];
  name = b'b' ∷ [];
  seq_id = 7;
  wait = some 0;
  response_err = some hb_timeout;
}

abbrev part : List ℕ
part = b'p' ∷ []

abbrev tasks : List (Request × ℕ × ℕ)
tasks = (answered_task, 10, 20) ∷ (failed_task, 30, 40) ∷ []

loop_writer-returns_test :
    (t : Session Memory) × (e : Option Error) × (loop_writer binary plain memory part tasks
        quiet_client
      ≡ some (t, e))
loop_writer-returns_test =
    loop_writer-returns binary plain memory part tasks quiet_client (refl, (refl, tt))

abbrev told : Session Memory
told = record quiet_client {
  transport = record quiet_client.transport {
    lastflush = 40;
    writer = record { held = []; gone = frames (replies binary plain part tasks) };
  };
}

runs : loop_writer binary plain memory part tasks quiet_client ≡ some (told, none)
unfolding loop_writer handle_response get_thrift_exception write_back flush_buffer length_written
    data_written flush_transport flushed need_flush frames put_uint32 Framing.write
runs = refl

loop_writer-frames_example :
    memory.accepted told.transport.writer ≡ frames (replies binary plain part tasks)
loop_writer-frames_example =
    loop_writer-frames binary plain memory part tasks quiet_client told (refl, (refl, tt)) refl runs

exception_answered_test :
    binary.read_message_begin (bytes_of (converted binary plain part failed_task).response_data)
    ≡ (record { name = b'g' ∷ []; type_id = 3; seq_id = 7 }, none)
exception_answered_test =
    exception_answered binary plain part failed_task hb_timeout refl
      (omega arith, omega arith, omega arith)
