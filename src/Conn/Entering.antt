-- ===== src/Conn/Entering.antt =====
-- What loopWriter leaves when it has written a request: the message that went out, and the entry under
-- its number.
use rpc_proxy.Prelude.{
  ℕ, ◌≡◌, refl, sym, ◌∙◌, Option, none, some, arith, length, lookup, lookup-insert, update,
  update_self, ◌==◌,
}
use rpc_proxy.Errors.{Error}
use rpc_proxy.Thrift.{Protocol}
use rpc_proxy.Framing.{Transport, write, flush_buffer}
use rpc_proxy.Framing.Output.{Sink}
use rpc_proxy.Request.{Request, replace_seq_id, bytes_of}
use rpc_proxy.Conn.{Conn, flushed, send, set_response_failed, done}

module _ (k : Sink) (p : Protocol) where
  open k use {W}

  -- Request `r`, rewritten to `q`, stands in the table under its new number.
  pub record Written (r : ℕ) (q : Request) (t : Conn W) : Type 0 where
    pub now_is : t.requests r ≡ q
    pub entry : lookup q.response_seq_id t.pending ≡ some r

  failed_none : (r : ℕ) (e : Error) (s t : Conn W) → set_response_failed r e s ≡ some (t, none) → ⊥
  unfolding set_response_failed done
  failed_none r e s t h = ground arith

  flushed-Written :
      (r : ℕ) (q : Request) (s t : Conn W) (a : Transport W × Option Error)
      → s.requests r ≡ q
      → flushed k p r q s a ≡ some (t, none)
      → Written r q t
  flushed-Written r q s t (c, none) same h = record {
    now_is = ground (arith, same);
    entry = ground (arith, lookup-insert q.response_seq_id q.response_seq_id r s.pending);
  }
  flushed-Written r q s t (c, some e) same h = absurd (failed_none r e _ t h)

  pub send-Written :
      (now later r : ℕ) (s t : Conn W) (q : Request)
      → replace_seq_id p s.current_seq_id (s.requests r) ≡ some q
      → send k p now later r s ≡ some (t, none)
      → Written r q t
  unfolding send
  send-Written now later r s t q e h =
      let u = record s { requests = update s.requests r q } in
      let c = (write s.transport (bytes_of q.payload)).0 in
      let flush = flush_buffer k c (length s.input == 0) now later in
      let step : send k p now later r s ≡ flushed k p r q u flush = rw (e, send) refl in
      flushed-Written r q u t flush (update_self s.requests r q) (sym step ∙ h)
