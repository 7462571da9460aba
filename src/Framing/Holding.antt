-- ===== src/Framing/Holding.antt =====
-- How much the writer may hold back.
use mathlib.Core.List.{append_assoc, append-nil}
use rpc_proxy.Prelude.{
  ℕ, ◌<◌, ◌≡◌, refl, sym, ap, ◌∙◌, Bool, Option, none, some, List, [], ◌∷◌, ◌++◌, length,
  length-append, arith, Bool-cases, inl, inr, ltb, ltb→le,
}
use rpc_proxy.Errors.{Error}
use rpc_proxy.Framing.{
  Transport, put_uint32, flushed, flush_transport, data_written, length_written, flush_buffer,
}
use rpc_proxy.Framing.Output.{Sink}
use rpc_proxy.Framing.RoundTrip.{frame, frames}
use rpc_proxy.Framing.Flushing.{
  due, empty_of_length, flush_transport-due, flush_transport-not_due, accepted-frame,
  flush_buffer-few,
}

frames-append : (fs : List (List ℕ)) (b : List ℕ) → frames (fs ++ b ∷ []) ≡ frames fs ++ frame b
unfolding frames put_uint32
frames-append [] b = append-nil (frame b)
frames-append (f ∷ fs) b =
    ap (◌++◌ (frame f)) (frames-append fs b) ∙ sym (append_assoc (frame f) (frames fs) (frame b))

module _ (k : Sink) where
  open k use {W, accepted, sent}

  -- All bytes up to `before` have been sent.
  abbrev pub SentUpTo : List ℕ → W → Type 0
  SentUpTo before w = (more : List ℕ) × (sent w ≡ before ++ more)

  -- What the writer was given ends with as many frames as `nbuffered` counts, and all before them has
  -- been sent.
  pub record Holds (p : Transport W) (before : List ℕ) (fs : List (List ℕ)) : Type 0 where
    pub given : accepted p.writer ≡ before ++ frames fs
    pub gone : SentUpTo before p.writer
    pub counted : length fs ≡ p.nbuffered

  -- The writer holds back at most the last frames, as many as `nbuffered` counts.
  abbrev pub Holding : Transport W → Type 0
  Holding p = (before : List ℕ) × (fs : List (List ℕ)) × Holds p before fs

  write-SentUpTo :
      (before bs : List ℕ) (w : W)
      → SentUpTo before w
      → (k.write w bs).2 ≡ none
      → SentUpTo before (k.write w bs).0
  write-SentUpTo before bs w (more, e) h =
      let (new, f) = k.write_sends w bs h in
      (more ++ new, f ∙ ap (λ xs. xs ++ new) e ∙ append_assoc before more new)

  flushed-Holding :
      (p : Transport W) (later : ℕ) (r : W × Option Error)
      → (r.1 ≡ none → accepted r.0 ≡ accepted p.writer)
      → (r.1 ≡ none → sent r.0 ≡ accepted p.writer)
      → (flushed k p later r).1 ≡ none
      → Holding (flushed k p later r).0
  unfolding flushed frames
  flushed-Holding p later (w, some e) a s h = cc
  flushed-Holding p later (w, none) a s h = (
    accepted p.writer,
    [],
    record {
      given = a refl ∙ sym (append-nil (accepted p.writer));
      gone = ([], s refl ∙ sym (append-nil (accepted p.writer)));
      counted = refl;
    },
  )

  flush_transport-Holding :
      (p : Transport W) (force : Bool) (now later : ℕ)
      → Holding p
      → (flush_transport k p force now later).1 ≡ none
      → Holding (flush_transport k p force now later).0
  flush_transport-Holding p force now later holding h = elim (Bool-cases (due k p force now)) [
    | inl t ↦
        let e = flush_transport-due k p force now later t in
        rw e (
          flushed-Holding p later (k.flush p.writer) (k.flush_accepts p.writer)
            (k.flush_sends p.writer) (rw e at h))
    | inr f ↦ rw (flush_transport-not_due k p force now later f) holding
  ]

  data_written-Holding :
      (p : Transport W) (before : List ℕ) (fs : List (List ℕ)) (force : Bool) (now later : ℕ)
      (r : W × ℕ × Option Error)
      → length fs ≡ p.nbuffered
      → (r.2 ≡ none → accepted r.0 ≡ (before ++ frames fs) ++ frame p.buffer)
      → (r.2 ≡ none → SentUpTo before r.0)
      → (data_written k p force now later r).1 ≡ none
      → Holding (data_written k p force now later r).0
  unfolding data_written
  data_written-Holding p before fs force now later (w, n, some e) c a g h = cc
  data_written-Holding p before fs force now later (w, n, none) c a g h =
      flush_transport-Holding _ force now later
        (
          before,
          fs ++ p.buffer ∷ [],
          record {
            given =
                a refl
                ∙ append_assoc before (frames fs) (frame p.buffer)
                ∙ ap (◌++◌ before) (sym (frames-append fs p.buffer));
            gone = g refl;
            counted = omega (arith, length-append fs (p.buffer ∷ []), c);
          },
        )
        h

  length_written-Holding :
      (p : Transport W) (before : List ℕ) (fs : List (List ℕ)) (force : Bool) (now later : ℕ)
      (r : W × ℕ × Option Error)
      → Holds p before fs
      → (r.2 ≡ none → accepted r.0 ≡ accepted p.writer ++ put_uint32 (length p.buffer))
      → (r.2 ≡ none → SentUpTo before r.0)
      → (length_written k p force now later r).1 ≡ none
      → Holding (length_written k p force now later r).0
  unfolding length_written
  length_written-Holding p before fs force now later (w, n, some e) o a g h = cc
  length_written-Holding p before fs force now later (w, n, none) o a g h =
      let framed : accepted w ++ p.buffer ≡ (before ++ frames fs) ++ frame p.buffer =
        accepted-frame k p w (a refl) ∙ ap (λ xs. xs ++ frame p.buffer) o.given in
      elim (Bool-cases (ltb 0 (length p.buffer))) [
        | inl t ↦ rw t (
            data_written-Holding p before fs force now later (k.write w p.buffer) o.counted
              (λ e. k.write_accepts w p.buffer e ∙ framed)
              (λ e. write-SentUpTo before p.buffer w (g refl) e) (rw t at h))
        | inr f ↦
            let nothing : p.buffer ≡ [] = empty_of_length p.buffer (ltb→le _ _ f) in
            rw f (
              data_written-Holding p before fs force now later (w, 0, none) o.counted
                (λ _. sym (ap (◌++◌ (accepted w)) nothing ∙ append-nil (accepted w)) ∙ framed) g
                (rw f at h))
      ]

  flush_buffer-Holding :
      (p : Transport W) (force : Bool) (now later : ℕ)
      → Holding p
      → (flush_buffer k p force now later).1 ≡ none
      → Holding (flush_buffer k p force now later).0
  unfolding flush_buffer
  flush_buffer-Holding p force now later (before, fs, o) h =
      let header = put_uint32 (length p.buffer) in
      length_written-Holding p before fs force now later (k.write p.writer header) o
        (k.write_accepts p.writer header) (λ e. write-SentUpTo before header p.writer o.gone e) h

  -- Where what the writer was given ends with as many frames as `nbuffered` counts, all before them has
  -- been sent and `MaxBuffered` is positive: after a FlushBuffer that returned no error, what the
  -- writer was given ends with fewer frames than `MaxBuffered`, as many as `nbuffered` counts, and
  -- all bytes before these have been sent.
  pub flush_buffer-bounded :
      (p : Transport W) (force : Bool) (now later : ℕ)
      → Holding p
      → 0 < p.max_buffered
      → (flush_buffer k p force now later).1 ≡ none
      → (before : List ℕ) × (fs : List (List ℕ)) × Holds
          (flush_buffer k p force now later).0
          before
          fs
        × (length fs < p.max_buffered)
  flush_buffer-bounded p force now later holding pos h =
      let (before, fs, o) = flush_buffer-Holding p force now later holding h in
      let few = flush_buffer-few k p force now later pos h in
      (before, fs, o, omega (arith, few, o.counted))
