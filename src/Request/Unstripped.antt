-- ===== src/Request/Unstripped.antt =====
-- A load balancer's session builds requests with `serviceInReq` false, yet DecodeRequest splits a
-- service off the name all the same. ReplaceSeqId then writes a shorter header than the one it
-- overwrites.
use mathlib.Core.List.{append_assoc}
use rpc_proxy.Prelude.{
  ℕ, ◌+◌, ◌≤◌, ◌≡◌, ap, sym, ◌∙◌, false, some, List, ◌∷◌, ◌++◌, length, take, drop, arith,
  take-append-drop, length-take, length-drop, length-append,
}
use rpc_proxy.Thrift.{Protocol, IsHeader, multiplexed_separator}
use rpc_proxy.Request.{Request, new_request, replaced, skipped, replace_seq_id, overwrite}
use rpc_proxy.Request.Names.{IsService, full_name, overwrite_zero}
use rpc_proxy.Request.Rewriting.{new_request_lem, replace_seq_id-replaced}

overwrite_short :
    (longer xs rest : List ℕ)
    → length xs ≤ length longer
    → overwrite 0 xs (longer ++ rest) ≡ xs ++ (drop (length xs) longer ++ rest)
overwrite_short longer xs rest h =
    let n = length xs in
    ap (λ l. overwrite 0 xs (l ++ rest)) (sym (take-append-drop n longer))
    ∙ ap (overwrite 0 xs) (append_assoc (take n longer) (drop n longer) rest)
    ∙ overwrite_zero xs (take n longer) (drop n longer ++ rest)
        (omega (arith, length-take n longer))

module _ (p : Protocol) where
  open p use {write_message_begin}

  not_skipped : (r : Request) → r.proxy_request ≡ false → skipped p r ≡ 0
  not_skipped r h = ground arith

  replaced_unskipped :
      (r : Request) (d : List ℕ) (new_seq : ℕ)
      → skipped p r ≡ 0
      → (replaced p new_seq r d).payload
        ≡ some (overwrite 0 (write_message_begin r.name r.type_id new_seq) d)
  replaced_unskipped r d new_seq h = rw h

  -- A request whose service is not stripped (`serviceInReq` false, name `service:name`) goes to the
  -- backend with `length service + 1` bytes of its old header between the new header and the body.
  pub replace_seq_id-unstripped :
      (service name : List ℕ) (type_id seq_id new_seq : ℕ) (body : List ℕ)
      → IsService service
      → IsHeader (full_name service name) type_id seq_id
      → (r' : Request) × (stale : List ℕ) × (replace_seq_id p new_seq (
            new_request p
              (write_message_begin (full_name service name) type_id seq_id ++ body)
              false)
          ≡ some r')
        × (r'.payload ≡ some (write_message_begin name type_id new_seq ++ (stale ++ body)))
        × (length stale ≡ length service + 1)
  replace_seq_id-unstripped service name type_id seq_id new_seq body s h =
      let message = write_message_begin (full_name service name) type_id seq_id in
      let header = write_message_begin name type_id new_seq in
      let r = new_request p (message ++ body) false in
      let (sv, nm, ty, sq, pr, pl, wt) =
        new_request_lem p service name type_id seq_id body false s h in
      let sizes : length message ≡ length header + (length service + 1) = omega (
        arith,
        p.length_write (full_name service name) type_id seq_id,
        p.length_write name type_id new_seq,
        length-append service (multiplexed_separator ∷ name),
      ) in
      (
        replaced p new_seq r (message ++ body),
        drop (length header) message,
        replace_seq_id-replaced p r (message ++ body) new_seq pl (omega (arith, not_skipped r pr)),
        replaced_unskipped r (message ++ body) new_seq (not_skipped r pr)
            ∙ cc (nm, ty)
            ∙ ap some (overwrite_short message header body (omega arith)),
        omega (arith, length-drop (length header) message),
      )
