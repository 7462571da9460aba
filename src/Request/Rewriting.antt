-- ===== src/Request/Rewriting.antt =====
-- The proxy strips the service and puts in its own sequence number, the backend answers under that
-- number, and the client's number is put back.
use mathlib.Core.List.{append_assoc}
use rpc_proxy.Prelude.{
  ℕ, ◌+◌, ◌≤◌, ◌<◌, ◌≡◌, refl, sym, ap, ◌∙◌, Bool, true, none, some, List, [], ◌∷◌, ◌++◌, length,
  take, drop, arith, take-append-drop, length-take, length-drop, length-append, drop_exact, le→ltb,
}
use rpc_proxy.Thrift.{Protocol, IsHeader, multiplexed_separator}
use rpc_proxy.Request.{
  Request, bytes_of, new_request, skipped, replaced, replace_seq_id, restore_seq_id,
  decode_thrift_typ_id_seq_id, overwrite,
}
use rpc_proxy.Request.Names.{
  IsService, full_name, split_name-full_name, split_name-none, overwrite-append, overwrite_zero,
}

-- A header written over the end of a longer one.
overwrite_header :
    (i : ℕ) (longer xs rest : List ℕ)
    → length longer ≡ i + length xs
    → drop i (overwrite i xs (longer ++ rest)) ≡ xs ++ rest
overwrite_header i longer xs rest h =
    let front : length (take i longer) ≡ i = omega (arith, length-take i longer) in
    let back : length xs ≡ length (drop i longer) = omega (arith, length-drop i longer) in
    rw
      (
        sym (take-append-drop i longer),
        append_assoc (take i longer) (drop i longer) rest,
        overwrite-append i (take i longer) xs (drop i longer) rest front back,
      )
      (drop_exact (take i longer) (xs ++ rest) i front)

module _ (p : Protocol) where
  open p use {write_message_begin, read_message_begin}

  -- NewRequest on a message `service:name` finds the service, the method, the type and the
  -- client's sequence number, and keeps the bytes.
  pub new_request_lem :
      (service name : List ℕ) (type_id seq_id : ℕ) (body : List ℕ) (in_req : Bool)
      → IsService service
      → IsHeader (full_name service name) type_id seq_id
      → let r =
          new_request p
            (write_message_begin (full_name service name) type_id seq_id ++ body)
            in_req in
        (r.service ≡ service)
        × (r.name ≡ name)
        × (r.type_id ≡ type_id)
        × (r.seq_id ≡ seq_id)
        × (r.proxy_request ≡ in_req)
        × (r.payload ≡ some (write_message_begin (full_name service name) type_id seq_id ++ body))
        × (r.wait ≡ some 0)
  unfolding new_request
  new_request_lem service name type_id seq_id body in_req s h =
      rw
        (
          p.read-write (full_name service name) type_id seq_id body h,
          split_name-full_name service name s,
        )
        (refl, refl, refl, refl, refl, refl, refl)

  pub replace_seq_id-replaced :
      (r : Request) (d : List ℕ) (new_seq : ℕ)
      → r.payload ≡ some d
      → skipped p r ≤ length d
      → replace_seq_id p new_seq r ≡ some (replaced p new_seq r d)
  unfolding replace_seq_id
  replace_seq_id-replaced r d new_seq e h = ground (arith, le→ltb (length d) (skipped p r) h)

  -- What a request is after ReplaceSeqId, where its bytes were a header and a body: the bytes are
  -- the header of the request's own name and type with the new number, and the same body.
  pub record Replaced (r r' : Request) (body : List ℕ) (new_seq : ℕ) : Type 0 where
    pub sent : r'.payload ≡ some (write_message_begin r.name r.type_id new_seq ++ body)
    pub numbered : r'.response_seq_id ≡ new_seq
    pub same_name : r'.name ≡ r.name
    pub same_seq : r'.seq_id ≡ r.seq_id
    pub same_wait : r'.wait ≡ r.wait

  pub replaced_lem :
      (r : Request) (body longer : List ℕ) (new_seq : ℕ)
      → r.payload ≡ some (longer ++ body)
      → length longer ≡ skipped p r + (length r.name + 12)
      → (r' : Request) × (replace_seq_id p new_seq r ≡ some r') × Replaced r r' body new_seq
  replaced_lem r body longer new_seq d h =
      let header = write_message_begin r.name r.type_id new_seq in
      let fits : length longer ≡ skipped p r + length header =
        omega (arith, p.length_write r.name r.type_id new_seq) in
      (
        replaced p new_seq r (longer ++ body),
        replace_seq_id-replaced r (longer ++ body) new_seq d
            (omega (arith, length-append longer body)),
        record {
          sent = ap some (overwrite_header (skipped p r) longer header body fits);
          numbered = refl;
          same_name = refl;
          same_seq = refl;
          same_wait = refl;
        },
      )

  pub skipped_service :
      (r : Request) (service : List ℕ)
      → r.proxy_request ≡ true
      → r.service ≡ service
      → 0 < length service
      → skipped p r ≡ length service + 1
  skipped_service r service pr sv pos = ground (arith, ap length sv)

  skipped_none : (r : Request) → r.service ≡ [] → skipped p r ≡ 0
  skipped_none r sv = ground (arith, ap length sv)

  pub new_request_plain :
      (name : List ℕ) (type_id seq_id : ℕ) (body : List ℕ) (in_req : Bool)
      → IsService name
      → IsHeader name type_id seq_id
      → let r = new_request p (write_message_begin name type_id seq_id ++ body) in_req in
        (r.service ≡ [])
        × (r.name ≡ name)
        × (r.type_id ≡ type_id)
        × (r.seq_id ≡ seq_id)
        × (r.proxy_request ≡ in_req)
        × (r.payload ≡ some (write_message_begin name type_id seq_id ++ body))
  unfolding new_request
  new_request_plain name type_id seq_id body in_req s h =
      rw (p.read-write name type_id seq_id body h, split_name-none name s)
        (refl, refl, refl, refl, refl, refl)

  -- The number that goes to the backend is the new one, and the client's is kept beside it, for a
  -- request that names its service: ReplaceSeqId strips `service:` and rewrites the number.
  pub replace_seq_id-new_request :
      (service name : List ℕ) (type_id seq_id new_seq : ℕ) (body : List ℕ)
      → IsService service
      → 0 < length service
      → IsHeader (full_name service name) type_id seq_id
      → (r' : Request) × (replace_seq_id p new_seq (
            new_request p
              (write_message_begin (full_name service name) type_id seq_id ++ body)
              true)
          ≡ some r')
        × (r'.payload ≡ some (write_message_begin name type_id new_seq ++ body))
        × (r'.name ≡ name)
        × (r'.seq_id ≡ seq_id)
        × (r'.response_seq_id ≡ new_seq)
  replace_seq_id-new_request service name type_id seq_id new_seq body s pos h =
      let message = write_message_begin (full_name service name) type_id seq_id in
      let r = new_request p (message ++ body) true in
      let (sv, nm, ty, sq, pr, pl, wt) =
        new_request_lem service name type_id seq_id body true s h in
      let stripped : skipped p r ≡ length service + 1 = skipped_service r service pr sv pos in
      let fits : length message ≡ skipped p r + (length r.name + 12) = omega (
        arith,
        p.length_write (full_name service name) type_id seq_id,
        length-append service (multiplexed_separator ∷ name),
        ap length nm,
        stripped,
      ) in
      let (r', done, t) = replaced_lem r body message new_seq pl fits in
      (r', done, cc (t.sent), cc (t.same_name), cc (t.same_seq), t.numbered)

  -- RestoreSeqId puts the request's own number back into an answer under the request's name; the
  -- type and the body of the answer stay.
  pub restore_seq_id_lem :
      (r : Request) (body : List ℕ) (seq : ℕ)
      → r.response_data ≡ some (write_message_begin r.name r.response_type_id seq ++ body)
      → (restore_seq_id p r).response_data
        ≡ some (write_message_begin r.name r.response_type_id r.seq_id ++ body)
  unfolding restore_seq_id
  restore_seq_id_lem r body seq d =
      let old = write_message_begin r.name r.response_type_id seq in
      let new = write_message_begin r.name r.response_type_id r.seq_id in
      let same : length new ≡ length old = omega (
        arith,
        p.length_write r.name r.response_type_id seq,
        p.length_write r.name r.response_type_id r.seq_id,
      ) in
      ground (arith, overwrite_zero new old body same)

  -- The answer to a request, as `setResponse` leaves it before RestoreSeqId.
  abbrev pub answered : Request → ℕ → ℕ → List ℕ → Request
  answered r reply seq body = record r {
    response_data = some (write_message_begin r.name reply seq ++ body);
    response_type_id = reply;
  }

  decode_restored :
      (r : Request) (reply seq : ℕ) (body : List ℕ)
      → IsHeader r.name reply r.seq_id
      → decode_thrift_typ_id_seq_id p
          (bytes_of (restore_seq_id p (answered r reply seq body)).response_data)
        ≡ (reply, r.seq_id, none)
  decode_restored r reply seq body h = rw (
    restore_seq_id_lem (answered r reply seq body) body seq refl,
    p.read-write r.name reply r.seq_id body h,
  )

  -- The client gets its own number back: a message `service:name` under number `seq_id`, sent on
  -- under `new_seq` and answered under `new_seq` with the method's name, comes back to the client
  -- as an answer that thrift decodes to the answer's type and `seq_id`.
  pub round_trip :
      (service name : List ℕ) (type_id seq_id new_seq reply : ℕ) (body reply_body : List ℕ)
      → IsService service
      → 0 < length service
      → IsHeader (full_name service name) type_id seq_id
      → reply < 256
      → (r' : Request) × (replace_seq_id p new_seq (
            new_request p
              (write_message_begin (full_name service name) type_id seq_id ++ body)
              true)
          ≡ some r')
        × (decode_thrift_typ_id_seq_id p
              (bytes_of (restore_seq_id p (answered r' reply new_seq reply_body)).response_data)
            ≡ (reply, seq_id, none))
  round_trip service name type_id seq_id new_seq reply body reply_body s pos h small =
      let (r', done, _, nm, sq, _) =
        replace_seq_id-new_request service name type_id seq_id new_seq body s pos h in
      let fits : IsHeader r'.name reply r'.seq_id =
        omega (arith, ap length nm, sq, length-append service (multiplexed_separator ∷ name)) in
      (r', done, decode_restored r' reply new_seq reply_body fits ∙ ap (λ k. (reply, k, none)) sq)

  -- A request without a service in its name, as a load balancer gets it from a proxy: only the number
  -- changes.
  pub replace_seq_id-plain :
      (name : List ℕ) (type_id seq_id new_seq : ℕ) (body : List ℕ) (in_req : Bool)
      → IsService name
      → IsHeader name type_id seq_id
      → (r' : Request) × (replace_seq_id p new_seq
            (new_request p (write_message_begin name type_id seq_id ++ body) in_req)
          ≡ some r')
        × (r'.payload ≡ some (write_message_begin name type_id new_seq ++ body))
        × (r'.seq_id ≡ seq_id)
        × (r'.response_seq_id ≡ new_seq)
  replace_seq_id-plain name type_id seq_id new_seq body in_req s h =
      let message = write_message_begin name type_id seq_id in
      let r = new_request p (message ++ body) in_req in
      let (sv, nm, ty, sq, pr, pl) = new_request_plain name type_id seq_id body in_req s h in
      let fits : length message ≡ skipped p r + (length r.name + 12) =
        omega (arith, p.length_write name type_id seq_id, ap length nm, skipped_none r sv) in
      let (r', done, t) = replaced_lem r body message new_seq pl fits in
      (r', done, cc (t.sent), cc (t.same_seq), t.numbered)
