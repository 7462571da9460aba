-- ===== src/Request.antt =====
-- proxy/request.go, proxy/heartbeat.go: a request on its way from a client to a backend and back.
-- The field `Request.Data` is `payload` here. A byte slice is `Option (List ℕ)`, nil being `none`; strings are their bytes. `wait` is the
-- counter of the sync.WaitGroup, `none` where the pointer is nil, and `failed` likewise.
-- thrift writes a message into `Data[start:start]`, so over the bytes that stand there: what was
-- read under the same name with thrift's version word is as long as what is written. A header that
-- was read without that word is shorter than the one written, which then covers the first bytes
-- of the body; what goes beyond the slice's length is not seen through it. (Where it goes beyond
-- the capacity, bytes.Buffer moves to an array of its own, and the rest does not reach the slice.)
pub mod Names
pub mod Rewriting
pub mod Unstripped
pub mod Hops
mod Examples
use rpc_proxy.Prelude.{
  ℕ, zero, suc, ◌+◌, Bool, true, false, Option, none, some, List, [], ◌∷◌, ◌++◌, length, drop, ltb,
  ◌==◌, if◌then◌else◌,
}
use rpc_proxy.Errors.{Error}
use rpc_proxy.Thrift.{MessageBegin, Protocol, multiplexed_separator, message_type_heart_beat}

pub record Request : Type 0 where
  pub service : List ℕ
  pub proxy_request : Bool
  pub name : List ℕ
  pub type_id : ℕ
  pub seq_id : ℕ
  pub payload : Option (List ℕ)
  pub data_orig : Option (List ℕ)
  pub op_str : List ℕ
  pub start : ℕ
  pub response_data : Option (List ℕ)
  pub response_err : Option Error
  pub response_seq_id : ℕ
  pub response_type_id : ℕ
  pub wait : Option ℕ
  pub failed : Option Bool

-- strings.SplitN(name, ":", 2), where it has two parts
unfoldable pub split_name : List ℕ → Option (List ℕ × List ℕ)
split_name [] = none
split_name (c ∷ cs) =
    let rest = split_name cs in
    if c == multiplexed_separator
    then some ([], cs)
    else elim rest [ none ↦ none | some (a, b) ↦ some (c ∷ a, b) ]

-- Bytes written over those of a slice from a position on.
unfoldable pub overwrite : ℕ → List ℕ → List ℕ → List ℕ
overwrite i xs [] = []
overwrite (suc i) xs (y ∷ ys) = y ∷ overwrite i xs ys
overwrite zero [] (y ∷ ys) = y ∷ ys
overwrite zero (x ∷ xs) (y ∷ ys) = x ∷ overwrite zero xs ys

abbrev pub bytes_of : Option (List ℕ) → List ℕ
bytes_of none = []
bytes_of (some d) = d

-- &Request{}, then the fields that NewRequest sets
abbrev pub blank : Request
blank = record {
  service = [];
  proxy_request = false;
  name = [];
  type_id = 0;
  seq_id = 0;
  payload = none;
  data_orig = none;
  op_str = [];
  start = 0;
  response_data = none;
  response_err = none;
  response_seq_id = 0;
  response_type_id = 0;
  wait = none;
  failed = none;
}

-- DecodeRequest, once the service has been split off the name
set_name : Request → List ℕ → Option (List ℕ × List ℕ) → Request
set_name r whole none = record r { service = []; name = whole }
set_name r whole (some (service, name)) = record r { service = service; name = name }

module _ (p : Protocol) where
  open p use {write_message_begin, read_message_begin}

  unfoldable pub decode_request : Request → Request
  unfolding set_name
  decode_request r =
      let (h, _) = read_message_begin (bytes_of r.payload) in
      set_name (record r { type_id = h.type_id; seq_id = h.seq_id }) h.name (split_name h.name)

  unfoldable pub new_request : List ℕ → Bool → Request
  unfolding decode_request
  new_request bytes service_in_req =
      decode_request
        (record blank { wait = some 0; proxy_request = service_in_req; payload = some bytes })

  abbrev service_length : Request → ℕ
  service_length r = if r.proxy_request then length r.service else 0

  -- the service and its separator
  abbrev pub skipped : Request → ℕ
  skipped r = if ltb 0 (service_length r) then service_length r + 1 else service_length r

  abbrev pub replaced : ℕ → Request → List ℕ → Request
  replaced new_seq r d =
      let rewritten = overwrite (skipped r) (write_message_begin r.name r.type_id new_seq) d in
      record r {
        response_seq_id = new_seq;
        data_orig = if ltb 0 (skipped r) then some rewritten else r.data_orig;
        payload = some (drop (skipped r) rewritten);
      }

  -- `none` is the panic of a slice beyond its length.
  unfoldable pub replace_seq_id : ℕ → Request → Option Request
  replace_seq_id new_seq r = elim r.payload [
    | none ↦ some r
    | some d ↦ if ltb (length d) (skipped r) then none else some (replaced new_seq r d)
  ]

  unfoldable pub restore_seq_id : Request → Request
  restore_seq_id r = elim r.response_data [
    | none ↦ r
    | some d ↦ record r {
      response_data = some (overwrite 0 (write_message_begin r.name r.response_type_id r.seq_id) d);
    }
  ]

  -- DecodeThriftTypIdSeqId
  abbrev pub decode_thrift_typ_id_seq_id : List ℕ → ℕ × ℕ × Option Error
  decode_thrift_typ_id_seq_id bytes =
      let (h, e) = read_message_begin bytes in (h.type_id, h.seq_id, e)

  -- NewPingRequest: no service, no WaitGroup. `now` is the clock.
  unfoldable pub new_ping_request : ℕ → Request
  new_ping_request now = record blank {
    start = now;
    payload = some (write_message_begin ping message_type_heart_beat 0);
    name = ping;
    type_id = message_type_heart_beat;
  }
    where
      ping : List ℕ
      ping = b'p' ∷ b'i' ∷ b'n' ∷ b'g' ∷ []

-- HandlePingRequest
unfoldable pub handle_ping_request : Request → Request
handle_ping_request r = record r { response_data = r.payload }
