-- ===== src/Conn/Routing.antt =====
-- An answer goes to the request that stands in the table under its number, and to no other, and it gets
-- there under the number that the client gave the request.
use rpc_proxy.Prelude.{
  ℕ, suc, ◌≡◌, ◌≢◌, refl, sym, ap, ◌∙◌, none, some, List, ◌++◌, arith, lookup, erase, update,
  lookup-erase,
}
use rpc_proxy.Request.{Request, restore_seq_id}
use rpc_proxy.Request.Rewriting.{restore_seq_id_lem}
use rpc_proxy.Thrift.{Protocol, message_type_heart_beat}
use rpc_proxy.Conn.{Conn, done, complete, answer}

-- The request with an answer filled in.
abbrev pub filled : Request → ℕ → List ℕ → Request
filled q type_id bytes = record q {
  response_type_id = type_id;
  response_data = some bytes;
  response_err = none;
}

kept_error : (p : Protocol) (q : Request) → (restore_seq_id p q).response_err ≡ q.response_err
unfolding restore_seq_id
kept_error p q = ground arith

released :
    (p : Protocol) (q : Request) (n : ℕ)
    → q.wait ≡ some (suc n)
    → done (restore_seq_id p q) ≡ some (record (restore_seq_id p q) { wait = some n })
unfolding done restore_seq_id
released p q n h = ground arith

module _ (p : Protocol) where
  open p use {write_message_begin}

  -- The bytes of an answer that came under `seq_id`, with the client's number put back.
  restored :
      (q : Request) (name : List ℕ) (type_id seq_id : ℕ) (body : List ℕ)
      → q.name ≡ name
      → (restore_seq_id p
          (filled q type_id (write_message_begin name type_id seq_id ++ body))).response_data
        ≡ some (write_message_begin name type_id q.seq_id ++ body)
  restored q name type_id seq_id body called =
      let bytes = write_message_begin name type_id seq_id ++ body in
      let same : some bytes ≡ some (write_message_begin q.name type_id seq_id ++ body) =
        ap (λ x. some (write_message_begin x type_id seq_id ++ body)) (sym called) in
      restore_seq_id_lem p (filled q type_id bytes) body seq_id same ∙ rw called refl

  module _ {W : Type 0} where
    -- Request r has as its answer the header of `name` and `type_id` with the number that the client
    -- gave, and the body; the entry of the table is gone, and all else is as before.
    pub record Answered (name : List ℕ) (type_id seq_id r : ℕ) (body : List ℕ) (s t : Conn W)
        : Type 0 where
      pub reply :
          (t.requests r).response_data
          ≡ some (write_message_begin name type_id (s.requests r).seq_id ++ body)
      pub no_error : (t.requests r).response_err ≡ none
      pub others : (x : ℕ) → x ≢ r → t.requests x ≡ s.requests x
      pub gone : lookup seq_id t.pending ≡ none
      pub table : (k : ℕ) → k ≢ seq_id → lookup k t.pending ≡ lookup k s.pending
      pub same_input : t.input ≡ s.input

    -- An answer under the name of the request that stands in the table under the answer's number, of a
    -- type that is not the heartbeat's, where somebody waits for that request: it does not panic,
    -- the request's answer is then the same message with the number in its header replaced by the
    -- one that the client gave the request, one wait of it ends, its entry is deleted, and no other
    -- request, no other entry and nothing queued changes.
    pub answer-Answered :
        (now : ℕ) (name : List ℕ) (type_id seq_id r n : ℕ) (body : List ℕ) (s : Conn W)
        → type_id ≢ message_type_heart_beat
        → lookup seq_id s.pending ≡ some r
        → (s.requests r).name ≡ name
        → (s.requests r).wait ≡ some (suc n)
        → (t : Conn W) × (answer p now type_id seq_id
              (write_message_begin name type_id seq_id ++ body)
              s
            ≡ some (t, none))
          × Answered name type_id seq_id r body s t
          × ((t.requests r).wait ≡ some n)
    unfolding answer complete
    answer-Answered now name type_id seq_id r n body s other found called waiting =
        let bytes = write_message_begin name type_id seq_id ++ body in
        let q = filled (s.requests r) type_id bytes in
        let q' = record (restore_seq_id p q) { wait = some n } in
        (
          record s { pending = erase seq_id s.pending; requests = update s.requests r q' },
          ground (arith, found, released p q n waiting),
          record {
            reply = ground (arith, restored (s.requests r) name type_id seq_id body called);
            no_error = ground (arith, kept_error p q);
            others = λ x h. ground arith;
            gone = ground (arith, lookup-erase seq_id seq_id s.pending);
            table = λ k h. ground (arith, lookup-erase seq_id k s.pending);
            same_input = refl;
          },
          ground arith,
        )
