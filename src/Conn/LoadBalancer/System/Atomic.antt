-- ===== src/Conn/LoadBalancer/System/Atomic.antt =====
-- The round of loopWriter as one operation, against its two steps.
use rpc_proxy.Prelude.{
  ℕ, ◌≡◌, refl, sym, ap, Option, none, some, length, ◌==◌, update, update_self, insert,
  Option-cases, inl, inr,
}
use rpc_proxy.Errors.{Error}
use rpc_proxy.Thrift.{Protocol}
use rpc_proxy.Framing.{Transport, write, flush_buffer}
use rpc_proxy.Framing.Output.{Sink}
use rpc_proxy.Request.{Request, replace_seq_id, bytes_of}
use rpc_proxy.Conn.{Conn, increase, flushed, send, set_response_failed}
use rpc_proxy.Conn.LoadBalancer.System.{register, send_frame}

module _ {W : Type 0} where
  -- What follows FlushBuffer at once, where no other goroutine moves in between.
  abbrev pub at_once : ℕ → Option (Conn W × Option Error) → Option (Conn W × Option Error)
  at_once r none = none
  at_once r (some (s, none)) = some (register r s, none)
  at_once r (some (s, some e)) = set_response_failed r e s

module _ (k : Sink) (p : Protocol) where
  open k use {W}

  registered :
      (r : ℕ) (q : Request) (s : Conn W) (a : Transport W × Option Error)
      → flushed k p r q (record s { requests = update s.requests r q }) a
        ≡ at_once r (some (record s { requests = update s.requests r q; transport = a.0 }, a.1))
  registered r q s (c, none) =
      ap
        (λ (n : ℕ). some (
          record s {
            requests = update s.requests r q;
            transport = c;
            current_seq_id = increase s.current_seq_id;
            pending = insert n r s.pending;
          },
          none,
        ))
        (ap (λ (x : Request). x.response_seq_id) (sym (update_self s.requests r q)))
  registered r q s (c, some e) = refl

  -- A round of loopWriter that sends a request, as one operation, does what its steps do one after
  -- the other: ReplaceSeqId, Write and FlushBuffer first, and then, with no step of another goroutine
  -- in between, the entry into the table under the number that the request was given or, where
  -- FlushBuffer failed, the request's failure.
  pub send-send_frame :
      (now later r : ℕ) (s : Conn W)
      → send k p now later r s ≡ at_once r (send_frame k p now later r s)
  unfolding send send_frame
  send-send_frame now later r s =
      elim (Option-cases (replace_seq_id p s.current_seq_id (s.requests r))) [
        | inl panics ↦ rw (panics, send, send_frame) refl
        | inr (q, replaced) ↦
            rw (replaced, send, send_frame)
              (registered r q s (
                flush_buffer k (write s.transport (bytes_of q.payload)).0 (length s.input == 0) now
                  later))
      ]
