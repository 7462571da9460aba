-- ===== src/Exceptions.antt =====
-- proxy/thrift_exception.go: the answers that the program makes itself. What TApplicationException
-- writes and how an error prints are a third-party package's and fmt's: an argument.
use rpc_proxy.Prelude.{ℕ, List, [], ◌∷◌, ◌++◌, Option}
use rpc_proxy.Errors.{Error}
use rpc_proxy.Thrift.{Protocol, exception}
use rpc_proxy.Request.{Request}

-- `write_exception kind message` and `%v` of an error
pub record Exceptions : Type 0 where
  pub write_exception : ℕ → List ℕ → List ℕ
  pub show : Option Error → List ℕ

-- thrift.UNKNOWN_APPLICATION_EXCEPTION and thrift.INTERNAL_ERROR
abbrev unknown_application_exception : ℕ
unknown_application_exception = 0

abbrev internal_error : ℕ
internal_error = 6

-- The pieces of the format strings.
abbrev service_text : List ℕ
service_text = b'S' ∷ b'e' ∷ b'r' ∷ b'v' ∷ b'i' ∷ b'c' ∷ b'e' ∷ b':' ∷ b' ' ∷ []

abbrev not_found_text : List ℕ
not_found_text = b' ' ∷ b'N' ∷ b'o' ∷ b't' ∷ b' ' ∷ b'F' ∷ b'o' ∷ b'u' ∷ b'n' ∷ b'd' ∷ []

abbrev worker_text : List ℕ
worker_text = b'W' ∷ b'o' ∷ b'r' ∷ b'k' ∷ b'e' ∷ b'r' ∷ b' ' ∷ b'F' ∷ b'O' ∷ b'R' ∷ b' ' ∷ []

abbrev module_text : List ℕ
module_text = b'M' ∷ b'o' ∷ b'd' ∷ b'u' ∷ b'l' ∷ b'e' ∷ b':' ∷ b' ' ∷ []

abbrev comma_service_text : List ℕ
comma_service_text = b',' ∷ b' ' ∷ b'S' ∷ b'e' ∷ b'r' ∷ b'v' ∷ b'i' ∷ b'c' ∷ b'e' ∷ b':' ∷ b' ' ∷ []

abbrev method_text : List ℕ
method_text = b',' ∷ b' ' ∷ b'M' ∷ b'e' ∷ b't' ∷ b'h' ∷ b'o' ∷ b'd' ∷ b':' ∷ b' ' ∷ []

abbrev error_text : List ℕ
error_text = b',' ∷ b' ' ∷ b'E' ∷ b'r' ∷ b'r' ∷ b'o' ∷ b'r' ∷ b':' ∷ b' ' ∷ []

module _ (p : Protocol) (x : Exceptions) where
  open p use {write_message_begin}
  open x use {write_exception, show}

  -- Each function sets Response.TypeId in the request and returns the bytes.
  unfoldable pub get_service_not_found_data : Request → Request × List ℕ
  get_service_not_found_data r =
      let msg = service_text ++ (r.service ++ not_found_text) in
      (
        record r { response_type_id = exception },
        write_message_begin r.name exception r.seq_id
            ++ write_exception unknown_application_exception msg,
      )

  unfoldable pub get_worker_not_found_data : List ℕ → Request → Request × List ℕ
  get_worker_not_found_data part r =
      let msg = worker_text ++ (part ++ b'#' ∷ (r.service ++ b'.' ∷ (r.name ++ not_found_text))) in
      (
        record r { response_type_id = exception },
        write_message_begin r.name exception r.seq_id ++ write_exception internal_error msg,
      )

  unfoldable pub get_thrift_exception : List ℕ → Request → Request × List ℕ
  get_thrift_exception part r =
      let msg =
        module_text
        ++ (part
            ++ (comma_service_text
                ++ (r.service
                    ++ (method_text ++ (r.name ++ (error_text ++ show r.response_err)))))) in
      (
        record r { response_type_id = exception },
        write_message_begin r.service exception r.seq_id ++ write_exception internal_error msg,
      )
