-- ===== src/Framing/Flushing.antt =====
-- What FlushBuffer and FlushTransport do to the connection, for every writer.
use mathlib.Core.List.{append_assoc, append-nil}
use rpc_proxy.Prelude.{
  ℕ, ◌<◌, ◌≤◌, ◌≡◌, refl, sym, ◌∙◌, ap, Bool, true, false, ◌&&◌, ◌||◌, Option, none, some, List, [],
  ◌∷◌, ◌++◌, length, arith, Bool-cases, inl, inr, ltb, ltb→le,
}
use rpc_proxy.Errors.{Error}
use rpc_proxy.Framing.{
  Transport, put_uint32, need_flush, flushed, flush_transport, data_written, length_written,
  flush_buffer,
}
use rpc_proxy.Framing.Output.{Sink}
use rpc_proxy.Framing.RoundTrip.{frame}

pub empty_of_length : (xs : List ℕ) → length xs ≤ 0 → xs ≡ []
empty_of_length [] h = refl
empty_of_length (x ∷ xs) h = absurd (omega arith)

module _ (k : Sink) where
  open k use {W, accepted, sent}

  -- What a call that returned no error has done to the writer and to the counter of frames.
  pub record Flushed (p q : Transport W) (force : Bool) : Type 0 where
    pub kept : accepted q.writer ≡ accepted p.writer
    pub same_buffer : q.buffer ≡ p.buffer
    pub few : 0 < p.max_buffered → q.nbuffered < p.max_buffered
    pub forced : force ≡ true → 0 < p.nbuffered → sent q.writer ≡ accepted p.writer

  flushed_ok :
      (p : Transport W) (force : Bool) (later : ℕ) (r : W × Option Error)
      → (r.1 ≡ none → accepted r.0 ≡ accepted p.writer)
      → (r.1 ≡ none → sent r.0 ≡ accepted p.writer)
      → (flushed k p later r).1 ≡ none
      → Flushed p (flushed k p later r).0 force
  unfolding flushed
  flushed_ok p force later (w, some e) a s h = cc
  flushed_ok p force later (w, none) a s h = record {
    kept = a refl;
    same_buffer = refl;
    few = λ m. m;
    forced = λ f n. s refl;
  }

  abbrev pub due : Transport W → Bool → ℕ → Bool
  due p force now = ltb 0 p.nbuffered && (force || need_flush p now)

  pub flush_transport-due :
      (p : Transport W) (force : Bool) (now later : ℕ)
      → due p force now ≡ true
      → flush_transport k p force now later ≡ flushed k p later (k.flush p.writer)
  unfolding flush_transport
  flush_transport-due p force now later t = rw t

  pub flush_transport-not_due :
      (p : Transport W) (force : Bool) (now later : ℕ)
      → due p force now ≡ false
      → flush_transport k p force now later ≡ (p, none)
  unfolding flush_transport
  flush_transport-not_due p force now later t = rw t

  not_due_few :
      (p : Transport W) (force : Bool) (now : ℕ)
      → due p force now ≡ false
      → 0 < p.max_buffered
      → p.nbuffered < p.max_buffered
  unfolding need_flush
  not_due_few p force now t m = ground arith

  not_due_forced : (p : Transport W) (now : ℕ) → due p true now ≡ false → ¬ (0 < p.nbuffered)
  not_due_forced p now t m = ground arith

  flush_transport_ok :
      (p : Transport W) (force : Bool) (now later : ℕ)
      → (flush_transport k p force now later).1 ≡ none
      → Flushed p (flush_transport k p force now later).0 force
  flush_transport_ok p force now later h = elim (Bool-cases (due p force now)) [
    | inl t ↦
        let e = flush_transport-due p force now later t in
        rw e (
          flushed_ok p force later (k.flush p.writer) (k.flush_accepts p.writer)
            (k.flush_sends p.writer) (rw e at h))
    | inr f ↦ rw (flush_transport-not_due p force now later f) (record {
      kept = refl;
      same_buffer = refl;
      few = not_due_few p force now f;
      forced = λ t n. absurd (not_due_forced p now (rw t at f) n);
    })
  ]

  -- What FlushBuffer has done when it returned no error.
  pub record Framed (p q : Transport W) (force : Bool) : Type 0 where
    pub appended : accepted q.writer ≡ accepted p.writer ++ frame p.buffer
    pub emptied : q.buffer ≡ []
    pub few : 0 < p.max_buffered → q.nbuffered < p.max_buffered
    pub forced : force ≡ true → sent q.writer ≡ accepted p.writer ++ frame p.buffer

  data_written_ok :
      (p : Transport W) (force : Bool) (now later : ℕ) (total : List ℕ) (r : W × ℕ × Option Error)
      → (r.2 ≡ none → accepted r.0 ≡ total)
      → (data_written k p force now later r).1 ≡ none
      → let q = (data_written k p force now later r).0 in
        (accepted q.writer ≡ total)
        × (q.buffer ≡ [])
        × (0 < p.max_buffered → q.nbuffered < p.max_buffered)
        × (force ≡ true → sent q.writer ≡ total)
  unfolding data_written
  data_written_ok p force now later total (w, n, some e) a h = cc
  data_written_ok p force now later total (w, n, none) a h =
      let f = flush_transport_ok _ force now later h in
      (f.kept ∙ a refl, f.same_buffer, f.few, λ t. f.forced t (omega arith) ∙ a refl)

  data_written-Framed :
      (p : Transport W) (force : Bool) (now later : ℕ) (r : W × ℕ × Option Error)
      → (r.2 ≡ none → accepted r.0 ≡ accepted p.writer ++ frame p.buffer)
      → (data_written k p force now later r).1 ≡ none
      → Framed p (data_written k p force now later r).0 force
  data_written-Framed p force now later r a h =
      let d = data_written_ok p force now later (accepted p.writer ++ frame p.buffer) r a h in
      record { appended = d.0; emptied = d.1; few = d.2; forced = d.3 }

  -- Whether or not there is data to write, the writer ends up with the length and the data.
  pub accepted-frame :
      (p : Transport W) (w : W)
      → accepted w ≡ accepted p.writer ++ put_uint32 (length p.buffer)
      → accepted w ++ p.buffer ≡ accepted p.writer ++ frame p.buffer
  accepted-frame p w a = rw a (append_assoc (accepted p.writer) _ p.buffer)

  length_written_ok :
      (p : Transport W) (force : Bool) (now later : ℕ) (r : W × ℕ × Option Error)
      → (r.2 ≡ none → accepted r.0 ≡ accepted p.writer ++ put_uint32 (length p.buffer))
      → (length_written k p force now later r).1 ≡ none
      → Framed p (length_written k p force now later r).0 force
  unfolding length_written
  length_written_ok p force now later (w, n, some e) a h = cc
  length_written_ok p force now later (w, n, none) a h =
      elim (Bool-cases (ltb 0 (length p.buffer))) [
        | inl t ↦ rw t (
            data_written-Framed p force now later (k.write w p.buffer)
              (λ e. k.write_accepts w p.buffer e ∙ accepted-frame p w (a refl)) (rw t at h))
        | inr f ↦
            let nothing : p.buffer ≡ [] = empty_of_length p.buffer (ltb→le _ _ f) in
            rw f (
              data_written-Framed p force now later (w, 0, none)
                (λ _.
                  sym (ap (◌++◌ (accepted w)) nothing ∙ append-nil (accepted w))
                  ∙ accepted-frame p w (a refl))
                (rw f at h))
      ]

  flush_buffer_ok :
      (p : Transport W) (force : Bool) (now later : ℕ)
      → (flush_buffer k p force now later).1 ≡ none
      → Framed p (flush_buffer k p force now later).0 force
  unfolding flush_buffer
  flush_buffer_ok p force now later h =
      length_written_ok p force now later (k.write p.writer (put_uint32 (length p.buffer)))
        (k.write_accepts p.writer (put_uint32 (length p.buffer))) h

  -- A FlushBuffer that returned no error has handed the writer one frame with the buffer's bytes,
  -- behind everything handed over before, and has emptied the buffer.
  pub flush_buffer-appends :
      (p : Transport W) (force : Bool) (now later : ℕ)
      → (flush_buffer k p force now later).1 ≡ none
      → let q = (flush_buffer k p force now later).0 in
        (accepted q.writer ≡ accepted p.writer ++ frame p.buffer) × (q.buffer ≡ [])
  flush_buffer-appends p force now later h =
      let f = flush_buffer_ok p force now later h in (f.appended, f.emptied)

  pub flush_buffer-few :
      (p : Transport W) (force : Bool) (now later : ℕ)
      → 0 < p.max_buffered
      → (flush_buffer k p force now later).1 ≡ none
      → (flush_buffer k p force now later).0.nbuffered < p.max_buffered
  flush_buffer-few p force now later pos h = (flush_buffer_ok p force now later h).few pos

  -- A forced FlushBuffer that returned no error leaves nothing in the writer: all that was ever
  -- handed to it has been sent, the frame of the buffer's bytes last.
  pub flush_buffer-sends :
      (p : Transport W) (now later : ℕ)
      → (flush_buffer k p true now later).1 ≡ none
      → let q = (flush_buffer k p true now later).0 in
        sent q.writer ≡ accepted p.writer ++ frame p.buffer
  flush_buffer-sends p now later h = (flush_buffer_ok p true now later h).forced refl
