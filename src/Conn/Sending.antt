-- ===== src/Conn/Sending.antt =====
-- A round of loopWriter: the request moves from the queue into the table, or fails.
use rpc_proxy.Prelude.{
  ℕ, ◌≡◌, refl, ap, ◌∙◌, Option, none, some, List, [], ◌∷◌, arith, ◌==◌, length, lookup, insert,
  Bool-cases, inl, inr, ltb, ◌-◌, ◌&&◌,
}
use rpc_proxy.Errors.{Error}
use rpc_proxy.Thrift.{Protocol, message_type_heart_beat}
use rpc_proxy.Framing.{Transport, write, flush_buffer}
use rpc_proxy.Framing.Output.{Sink}
use rpc_proxy.Request.{Request, replace_seq_id, bytes_of}
use rpc_proxy.Conn.{Conn, increase, flushed, send, write_request}
use rpc_proxy.Conn.Accounts.{Accounts, insert_fresh, insert-UniqueKeys}
use rpc_proxy.Conn.Steps.{with_request, set_response_failed-Accounts}

replace_keeps :
    (p : Protocol) (seq : ℕ) (r q : Request) (d : List ℕ)
    → r.payload ≡ some d
    → replace_seq_id p seq r ≡ some q
    → (q.wait ≡ r.wait) × (q.response_seq_id ≡ seq)
unfolding replace_seq_id
replace_keeps p seq r q d h e = ground arith

module _ (k : Sink) (p : Protocol) where
  open k use {W}

  rewritten-Accounts :
      (hand : List ℕ) (r : ℕ) (s : Conn W) (q : Request)
      → Accounts hand s
      → q.wait ≡ (s.requests r).wait
      → Accounts hand (with_request s r q)
  rewritten-Accounts hand r s q a same = record {
    keys = a.keys;
    waits = λ x n h. ground (arith, a.waits x n);
  }

  registered-Accounts :
      (seq r : ℕ) (s : Conn W) (c : Transport W)
      → Accounts (r ∷ []) s
      → lookup seq s.pending ≡ none
      → Accounts [] (record s {
        transport = c;
        current_seq_id = increase s.current_seq_id;
        pending = insert seq r s.pending;
      })
  registered-Accounts seq r s c a free = record {
    keys = insert-UniqueKeys seq r s.pending a.keys;
    waits = λ x n h. ground (arith, a.waits x n h, insert_fresh seq r x s.pending free);
  }

  flushed-Accounts :
      (r : ℕ) (q : Request) (s : Conn W) (a : Transport W × Option Error)
      → Accounts (r ∷ []) s
      → lookup q.response_seq_id s.pending ≡ none
      → (t : Conn W) × (flushed k p r q s a ≡ some (t, a.1)) × Accounts [] t
  flushed-Accounts r q s (c, none) a free =
      (_, refl, registered-Accounts q.response_seq_id r s c a free)
  flushed-Accounts r q s (c, some e) a free =
      let (t, done, b, _) =
        set_response_failed-Accounts [] r e (record s { transport = c })
          (record { keys = a.keys; waits = a.waits }) in
      (t, done, b)

  dropped-Accounts :
      (r : ℕ) (s : Conn W) → Accounts (r ∷ []) s → (s.requests r).wait ≡ none → Accounts [] s
  dropped-Accounts r s a nobody = record {
    keys = a.keys;
    waits = λ x n h. ground (arith, a.waits x n h);
  }

  -- Sending a request at hand under a number that is not in the table: it does not panic, and the
  -- request then stands in the table once, or its wait has ended because the write failed.
  pub send-Accounts :
      (now later r : ℕ) (s : Conn W) (q : Request) (d : List ℕ)
      → Accounts (r ∷ []) s
      → lookup s.current_seq_id s.pending ≡ none
      → (s.requests r).payload ≡ some d
      → replace_seq_id p s.current_seq_id (s.requests r) ≡ some q
      → (t : Conn W) × (e : Option Error) × (send k p now later r s ≡ some (t, e)) × Accounts [] t
  unfolding send
  send-Accounts now later r s q d a free whole e =
      let (same, numbered) = replace_keeps p s.current_seq_id (s.requests r) q d whole e in
      let c = (write s.transport (bytes_of q.payload)).0 in
      let flush = flush_buffer k c (length s.input == 0) now later in
      let (t, done, b) =
        flushed-Accounts r q (with_request s r q) flush (rewritten-Accounts (r ∷ []) r s q a same)
          (ap (λ n. lookup n s.pending) numbered ∙ free) in
      (t, flush.1, rw (e, send) done, b)

  -- A round of loopWriter with a request from the queue. Where each WaitGroup counts the places of
  -- its request (at hand, queued, in the table), the current number is not in the table, the
  -- rewriting of the message does not panic and nobody waits for a heartbeat, the round does not
  -- panic, and afterwards each WaitGroup counts the places in queue and table: the request is
  -- registered, or has failed, or was an old heartbeat.
  pub write_request-Accounts :
      (unix now later r : ℕ) (s : Conn W) (q : Request) (d : List ℕ)
      → Accounts (r ∷ []) s
      → lookup s.current_seq_id s.pending ≡ none
      → (s.requests r).payload ≡ some d
      → replace_seq_id p s.current_seq_id (s.requests r) ≡ some q
      → ((s.requests r).type_id ≡ message_type_heart_beat → (s.requests r).wait ≡ none)
      → (t : Conn W) × (e : Option Error) × (write_request k p unix now later r s ≡ some (t, e))
        × Accounts [] t
  unfolding write_request
  write_request-Accounts unix now later r s q d a free whole e pings =
      let old =
        (s.requests r).type_id == message_type_heart_beat && ltb 4 (unix - (s.requests r).start) in
      elim (Bool-cases old) [
        | inl drop ↦ (s, none, rw drop refl, dropped-Accounts r s a (pings (ground arith)))
        | inr keep ↦
            let (t, err, done, b) = send-Accounts now later r s q d a free whole e in
            (t, err, rw keep done, b)
      ]
