-- ===== src/Errors.antt =====
-- Go's error values, and results that carry one. An error that the code builds from a message and
-- another error is the constructor of the place that builds it, with the error it wraps.
use rpc_proxy.Prelude.{ℕ}

pub data Error : Type 0 where
  -- io.EOF and io.ErrUnexpectedEOF
  eof unexpected_eof : Error
  -- an error of the operating system
  io : ℕ → Error
  -- thrift.NewTTransportExceptionFromError
  transport : Error → Error
  -- proxy/buffered_framed_transport.go: "Unexpected frame size", "Incorrect frame size",
  -- "Frame Header Read Error", "Frame Data Read Error", "Not enough frame size"
  unexpected_frame_size : ℕ → Error
  incorrect_frame_size : ℕ → Error
  frame_header_read : Error → Error
  frame_data_read : Error → Error
  not_enough_frame : ℕ → Error
  -- a header that thrift's protocol refuses
  bad_message : ℕ → Error
  -- "HB timeout" and "Invalid Response" of the backend connections
  hb_timeout invalid_response : Error

pub data Result {ℓ} (A : Type ℓ) : Type ℓ where
  ok : A → Result A
  err : Error → Result A
