-- ===== src/Session/Answers.antt =====
-- What loopWriter puts on a client's connection.
use mathlib.Core.List.{append_assoc, append-nil}
use rpc_proxy.Prelude.{
  ℕ, ◌≡◌, refl, sym, ap, ◌∙◌, Option, none, some, List, [], ◌∷◌, ◌++◌, arith, Option-cases, inl,
  inr, true,
}
use rpc_proxy.Errors.{Error}
use rpc_proxy.Framing.{write}
use rpc_proxy.Framing.Output.{Sink}
use rpc_proxy.Framing.RoundTrip.{frame, frames}
use rpc_proxy.Framing.Flushing.{flush_buffer-appends, flush_buffer-sends}
use rpc_proxy.Thrift.{Protocol, IsHeader, exception}
use rpc_proxy.Request.{Request, bytes_of}
use rpc_proxy.Exceptions.{Exceptions, get_thrift_exception}
use rpc_proxy.Session.{Session, converted, handle_response, write_back, loop_writer}

-- Every task has been answered when its turn comes.
abbrev pub AllAnswered : List (Request × ℕ × ℕ) → Type 0
AllAnswered [] = Unit {0}
AllAnswered ((r, _, _) ∷ tasks) = (r.wait ≡ some 0) × AllAnswered tasks

module _ (k : Sink) where
  open k use {W, accepted, sent}

  -- An answer that was written back without an error.
  pub record Written (bytes : List ℕ) (s t : Session W) : Type 0 where
    pub appended : accepted t.transport.writer ≡ accepted s.transport.writer ++ frame bytes
    pub emptied : t.transport.buffer ≡ []
    pub gone : sent t.transport.writer ≡ accepted t.transport.writer

  write_back-Written :
      (now later : ℕ) (r : Request) (s : Session W)
      → s.transport.buffer ≡ []
      → (write_back k now later r s).1 ≡ none
      → Written (bytes_of r.response_data) s (write_back k now later r s).0
  unfolding write_back write
  write_back-Written now later r s empty h =
      let t = record s.transport { buffer = s.transport.buffer ++ bytes_of r.response_data } in
      let a = flush_buffer-appends k t true now later h in
      let same : frame t.buffer ≡ frame (bytes_of r.response_data) =
        ap (λ b. frame (b ++ bytes_of r.response_data)) empty in
      let appended = a.0 ∙ ap (λ f. accepted s.transport.writer ++ f) same in
      record {
        appended = appended;
        emptied = a.1;
        gone = flush_buffer-sends k t now later h ∙ sym a.0;
      }

module _ (p : Protocol) (x : Exceptions) where
  -- The bytes that the client gets for the tasks.
  abbrev pub replies : List ℕ → List (Request × ℕ × ℕ) → List (List ℕ)
  replies part [] = []
  replies part ((r, _, _) ∷ tasks) =
      bytes_of (converted p x part r).response_data ∷ replies part tasks

  answered_response :
      (part : List ℕ) (r : Request)
      → r.wait ≡ some 0
      → handle_response p x part r ≡ some (converted p x part r)
  unfolding handle_response
  answered_response part r h = ground (arith, h)

  -- The client of a request that failed gets an exception under its own sequence number, but under
  -- the name of the service, not of the method that it called.
  pub exception_answered :
      (part : List ℕ) (r : Request) (e : Error)
      → r.response_err ≡ some e
      → IsHeader r.service exception r.seq_id
      → p.read_message_begin (bytes_of (converted p x part r).response_data)
        ≡ (record { name = r.service; type_id = exception; seq_id = r.seq_id }, none)
  unfolding get_thrift_exception
  exception_answered part r e failed fits =
      rw failed (p.read-write r.service exception r.seq_id _ fits)

  module _ (k : Sink) where
    open k use {W, accepted, sent}

    -- Where every task has been answered when its turn comes, loopWriter does not block for ever or
    -- panic.
    pub loop_writer-returns :
        (part : List ℕ) (tasks : List (Request × ℕ × ℕ)) (s : Session W)
        → AllAnswered tasks
        → (t : Session W) × (e : Option Error) × (loop_writer p x k part tasks s ≡ some (t, e))
    unfolding loop_writer
    loop_writer-returns part [] s all = (s, none, refl)
    loop_writer-returns part ((r, now, later) ∷ tasks) s all =
        let q = converted p x part r in
        let (t, e) = write_back k now later q s in
        elim (Option-cases (write_back k now later q s).1) [
          | inl fine ↦
              let (u, f, rest) =
                loop_writer-returns part tasks (write_back k now later q s).0 all.1 in
              (u, f, rw (answered_response part r all.0, fine, loop_writer) rest)
          | inr (e', failed) ↦ (
            (write_back k now later q s).0,
            some e',
            rw (answered_response part r all.0, failed, loop_writer) refl,
          )
        ]

    -- Where every task has been answered when its turn comes and loopWriter ends without an error,
    -- it has handed the writer one frame for each task, in the tasks' order.
    pub loop_writer-frames :
        (part : List ℕ) (tasks : List (Request × ℕ × ℕ)) (s t : Session W)
        → AllAnswered tasks
        → s.transport.buffer ≡ []
        → loop_writer p x k part tasks s ≡ some (t, none)
        → accepted t.transport.writer ≡ accepted s.transport.writer ++ frames (replies part tasks)
    unfolding loop_writer frames
    loop_writer-frames part [] s t all empty h =
        let same : t ≡ s = ground (arith, h) in
        ap (λ (u : Session W). accepted u.transport.writer) same
        ∙ sym (append-nil (accepted s.transport.writer))
    loop_writer-frames part ((r, now, later) ∷ tasks) s t all empty h =
        let q = converted p x part r in
        let u = (write_back k now later q s).0 in
        elim (Option-cases (write_back k now later q s).1) [
          | inl fine ↦
              let w = write_back-Written k now later q s empty fine in
              let step : loop_writer p x k part ((r, now, later) ∷ tasks) s
                  ≡ loop_writer p x k part tasks u =
                ground (arith, answered_response part r all.0, fine) in
              let rest = loop_writer-frames part tasks u t all.1 w.emptied (sym step ∙ h) in
              rest
              ∙ ap (λ b. b ++ frames (replies part tasks)) w.appended
              ∙ append_assoc (accepted s.transport.writer) (frame (bytes_of q.response_data))
                  (frames (replies part tasks))
          | inr (e', failed) ↦
              let step : loop_writer p x k part ((r, now, later) ∷ tasks) s ≡ some (u, some e') =
                ground (arith, answered_response part r all.0, failed) in
              absurd (ground (arith, sym step ∙ h))
        ]
