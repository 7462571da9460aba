-- ===== src/Request/Examples.antt =====
-- proxy/request.go on concrete messages of the binary protocol.
use rpc_proxy.Prelude.{
  ℕ, ◌≡◌, ◌+◌, refl, true, false, none, some, List, [], ◌∷◌, ◌++◌, length, arith,
}
use rpc_proxy.Framing.{put_uint32, get_uint32}
use rpc_proxy.Thrift.Binary.{binary, write}
use rpc_proxy.Request.{
  Request, new_request, replace_seq_id, restore_seq_id, decode_thrift_typ_id_seq_id, bytes_of,
  split_name, blank,
}
use rpc_proxy.Request.Names.{full_name}
use rpc_proxy.Request.Rewriting.{
  round_trip, replace_seq_id-new_request, restore_seq_id_lem, replace_seq_id-plain, answered,
}
use rpc_proxy.Request.Unstripped.{replace_seq_id-unstripped}

abbrev geo : List ℕ
geo = b'g' ∷ b'e' ∷ b'o' ∷ []

abbrev near : List ℕ
near = b'n' ∷ b'e' ∷ b'a' ∷ b'r' ∷ []

abbrev body : List ℕ
body = 11 ∷ 0 ∷ []

abbrev call : List ℕ
call = write (full_name geo near) 1 77 ++ body

call_decoded :
    let r = new_request binary call true in (r.service ≡ geo) × (r.name ≡ near) × (r.seq_id ≡ 77)
unfolding new_request split_name put_uint32 get_uint32
call_decoded = (refl, refl, refl)

replace_seq_id-new_request_test :
    (r' : Request) × (replace_seq_id binary 5 (new_request binary call true) ≡ some r')
    × (r'.payload ≡ some (write near 1 5 ++ body))
    × (r'.name ≡ near)
    × (r'.seq_id ≡ 77)
    × (r'.response_seq_id ≡ 5)
replace_seq_id-new_request_test =
    replace_seq_id-new_request binary geo near 1 77 5 body (omega arith) (omega arith) (omega arith)

round_trip_test :
    (r' : Request) × (replace_seq_id binary 5 (new_request binary call true) ≡ some r')
    × (decode_thrift_typ_id_seq_id binary
          (bytes_of (restore_seq_id binary (answered binary r' 2 5 (0 ∷ []))).response_data)
        ≡ (2, 77, none))
round_trip_test =
    round_trip binary geo near 1 77 5 2 body (0 ∷ []) (omega arith) (omega arith) (omega arith)
      (omega arith)

abbrev waiting : Request
waiting = record blank {
  name = near;
  seq_id = 77;
  response_type_id = 2;
  response_data = some (write near 2 5 ++ body);
}

restore_seq_id_test : (restore_seq_id binary waiting).response_data ≡ some (write near 2 77 ++ body)
restore_seq_id_test = restore_seq_id_lem binary waiting body 5 refl

replace_seq_id-plain_test :
    (r' : Request) × (replace_seq_id binary 5 (new_request binary (write near 1 77 ++ body) false)
      ≡ some r')
    × (r'.payload ≡ some (write near 1 5 ++ body))
    × (r'.seq_id ≡ 77)
    × (r'.response_seq_id ≡ 5)
replace_seq_id-plain_test =
    replace_seq_id-plain binary near 1 77 5 body false (omega arith) (omega arith)

replace_seq_id-unstripped_test :
    (r' : Request) × (stale : List ℕ) × (replace_seq_id binary 5 (new_request binary call false)
      ≡ some r')
    × (r'.payload ≡ some (write near 1 5 ++ (stale ++ body)))
    × (length stale ≡ length geo + 1)
replace_seq_id-unstripped_test =
    replace_seq_id-unstripped binary geo near 1 77 5 body (omega arith) (omega arith)
