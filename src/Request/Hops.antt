-- ===== src/Request/Hops.antt =====
-- What a request looks like on each of the two hops: as the proxy's session makes it, and as the load
-- balancer's session makes it of the bytes that the proxy sent.
use rpc_proxy.Prelude.{
  ℕ, suc, ◌+◌, ◌<◌, ◌≡◌, ap, ◌∙◌, true, false, some, List, ◌∷◌, ◌++◌, length, arith, length-append,
}
use rpc_proxy.Thrift.{Protocol, IsHeader, multiplexed_separator}
use rpc_proxy.Request.{Request, new_request, replace_seq_id, skipped}
use rpc_proxy.Request.Names.{IsService, full_name}
use rpc_proxy.Request.Rewriting.{new_request_lem, new_request_plain, replaced_lem, skipped_service}

module _ (p : Protocol) where
  open p use {write_message_begin}

  -- A request as the proxy's session hands it over; `n` waits will be left.
  abbrev pub from_client : List ℕ → ℕ → Request
  from_client message n = record (new_request p message true) { wait = some (suc n) }

  -- A request as Dispatch and PushBack of the load balancer leave it.
  abbrev pub from_proxy : List ℕ → List ℕ → ℕ → Request
  from_proxy service message n = record (new_request p message false) {
    service = service;
    wait = some (suc n);
  }

  -- `r` goes out as `q`: method, type and body, under the new number; the old one is kept in it.
  pub record Forwarded (name : List ℕ) (type_id old new n : ℕ) (body : List ℕ) (q : Request)
      : Type 0 where
    pub sent : q.payload ≡ some (write_message_begin name type_id new ++ body)
    pub numbered : q.response_seq_id ≡ new
    pub called : q.name ≡ name
    pub from : q.seq_id ≡ old
    pub waiting : q.wait ≡ some (suc n)

  pub from_client-Forwarded :
      (service name : List ℕ) (type_id seq_id new n : ℕ) (body : List ℕ)
      → IsService service
      → 0 < length service
      → IsHeader (full_name service name) type_id seq_id
      → (q : Request) × (replace_seq_id p new
            (from_client (write_message_begin (full_name service name) type_id seq_id ++ body) n)
          ≡ some q)
        × Forwarded name type_id seq_id new n body q
  from_client-Forwarded service name type_id seq_id new n body s pos h =
      let message = write_message_begin (full_name service name) type_id seq_id in
      let r = from_client (message ++ body) n in
      let (sv, nm, ty, sq, pr, pl, wt) =
        new_request_lem p service name type_id seq_id body true s h in
      let stripped : skipped p r ≡ length service + 1 = skipped_service p r service pr sv pos in
      let fits : length message ≡ skipped p r + (length r.name + 12) = omega (
        arith,
        p.length_write (full_name service name) type_id seq_id,
        length-append service (multiplexed_separator ∷ name),
        ap length nm,
        stripped,
      ) in
      let (q, done, t) = replaced_lem p r body message new pl fits in
      (
        q,
        done,
        record {
          sent = cc (t.sent, nm, ty);
          numbered = t.numbered;
          called = t.same_name ∙ nm;
          from = t.same_seq ∙ sq;
          waiting = t.same_wait;
        },
      )

  pub from_proxy-Forwarded :
      (service name : List ℕ) (type_id seq_id new n : ℕ) (body : List ℕ)
      → IsService name
      → IsHeader name type_id seq_id
      → (q : Request) × (replace_seq_id p new
            (from_proxy service (write_message_begin name type_id seq_id ++ body) n)
          ≡ some q)
        × Forwarded name type_id seq_id new n body q
  from_proxy-Forwarded service name type_id seq_id new n body s h =
      let message = write_message_begin name type_id seq_id in
      let r = from_proxy service (message ++ body) n in
      let (sv, nm, ty, sq, pr, pl) = new_request_plain p name type_id seq_id body false s h in
      let whole : skipped p r ≡ 0 = ground (arith, pr) in
      let fits : length message ≡ skipped p r + (length r.name + 12) =
        omega (arith, p.length_write name type_id seq_id, ap length nm, whole) in
      let (q, done, t) = replaced_lem p r body message new pl fits in
      (
        q,
        done,
        record {
          sent = cc (t.sent, nm, ty);
          numbered = t.numbered;
          called = t.same_name ∙ nm;
          from = t.same_seq ∙ sq;
          waiting = t.same_wait;
        },
      )
