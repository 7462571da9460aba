-- ===== src/Session/Serving/Once.antt =====
-- Each request of a session is in one place at a time, and no goroutine is left when the channel is
-- closed.
use rpc_proxy.Prelude.{
  ℕ, ◌+◌, ◌≡◌, refl, ap, true, false, List, [], ◌∷◌, length, length-append, arith, ltb,
  if◌then◌else◌, Bool-cases, inl, inr, ◌⊎◌,
}
use rpc_proxy.Framing.Output.{Sink}
use rpc_proxy.Thrift.{Protocol}
use rpc_proxy.Exceptions.{Exceptions}
use rpc_proxy.Session.{Dispatcher}
use rpc_proxy.Session.Serving.{
  Serving, Step, read, break, handle, hand_over, done, close_tasks, answer, write, fail, throw,
  Reach, here, next,
}
use rpc_proxy.Conn.Accounts.{count, count-++}

module _ {W D : Type 0} where
  -- How often a request stands with a goroutine, in the channel, or among those that left it.
  abbrev pub stands : ℕ → Serving W D → ℕ
  stands i s =
      count i s.started
      + count i s.handled
      + count i s.tasks
      + count i s.written
      + count i s.dropped

  pub record Inv (s : Serving W D) : Type 0 where
    pub once : (i : ℕ) → stands i s ≡ (if ltb i s.next then 1 else 0)
    pub counted : s.wait ≡ length s.started + length s.handled + s.leaving
    pub closing : s.tasks_closed ≡ true → s.reading ≡ false
    pub quiet : s.tasks_closed ≡ true → s.wait ≡ 0

  -- Serve before its first frame.
  pub record Starting (s : Serving W D) : Type 0 where
    pub no_frame : s.next ≡ 0
    pub nobody : (s.started ≡ []) × (s.handled ≡ []) × (s.leaving ≡ 0) × (s.wait ≡ 0)
    pub nothing : (s.tasks ≡ []) × (s.written ≡ []) × (s.dropped ≡ [])
    pub opened : s.tasks_closed ≡ false

  Starting-Inv : (s : Serving W D) → Starting s → Inv s
  Starting-Inv s a =
      let (b, c, d, e) = a.nobody in
      let (f, g, h) = a.nothing in
      record {
        once = λ i. ground (
          arith,
          a.no_frame,
          ap (count i) b,
          ap (count i) c,
          ap (count i) f,
          ap (count i) g,
          ap (count i) h,
        );
        counted = omega (arith, ap length b, ap length c, d, e);
        closing = λ closed. ground (arith, a.opened, closed);
        quiet = λ closed. e;
      }

nobody_left : (xs : List ℕ) → length xs ≡ 0 → xs ≡ []
nobody_left [] h = refl
nobody_left (y ∷ ys) h = absurd (omega (arith, h))

module _ (p : Protocol) (x : Exceptions) (k : Sink) {D : Type 0} (dispatch : Dispatcher D)
    (max_pipeline : ℕ) where
  open k use {W}

  Step-Inv : (s t : Serving W D) → Inv s → Step p x k dispatch max_pipeline s t → Inv t
  Step-Inv s t v (read {bytes = bytes} runs got) = record {
    once = λ i. ground (arith, v.once i, count-++ i s.started (s.next ∷ []));
    counted = omega (arith, v.counted, length-append s.started (s.next ∷ []));
    closing = λ c. v.closing c;
    quiet = λ c. ground (arith, v.closing c, runs);
  }
  Step-Inv s t v (break {e = e} runs got) = record {
    once = v.once;
    counted = v.counted;
    closing = λ c. refl;
    quiet = v.quiet;
  }
  Step-Inv s t v (handle unix i before after at_i go) = record {
    once = λ j. ground (
      arith,
      v.once j,
      ap (count j) at_i,
      count-++ j before (i ∷ after),
      count-++ j before after,
    );
    counted = omega (
      arith,
      v.counted,
      ap length at_i,
      length-append before (i ∷ after),
      length-append before after,
    );
    closing = v.closing;
    quiet = v.quiet;
  }
  Step-Inv s t v (hand_over i before after at_i room opened) = record {
    once = λ j. ground (
      arith,
      v.once j,
      ap (count j) at_i,
      count-++ j before (i ∷ after),
      count-++ j before after,
      count-++ j s.tasks (i ∷ []),
    );
    counted = omega (
      arith,
      v.counted,
      ap length at_i,
      length-append before (i ∷ after),
      length-append before after,
    );
    closing = v.closing;
    quiet = v.quiet;
  }
  Step-Inv s t v (done {n = n} left) = record {
    once = v.once;
    counted = omega (arith, v.counted, left);
    closing = v.closing;
    quiet = λ c. omega (arith, v.quiet c);
  }
  Step-Inv s t v (close_tasks ended nobody opened) = record {
    once = v.once;
    counted = v.counted;
    closing = λ c. ended;
    quiet = λ c. nobody;
  }
  Step-Inv s t v (answer requests) = record {
    once = v.once;
    counted = v.counted;
    closing = v.closing;
    quiet = v.quiet;
  }
  Step-Inv s t v (write part now later i rest runs front answered sent) = record {
    once = λ j. ground (arith, v.once j, ap (count j) front, count-++ j s.written (i ∷ []));
    counted = v.counted;
    closing = v.closing;
    quiet = v.quiet;
  }
  Step-Inv s t v (fail part now later i rest runs front answered sent) = record {
    once = λ j. ground (arith, v.once j, ap (count j) front);
    counted = v.counted;
    closing = v.closing;
    quiet = v.quiet;
  }
  Step-Inv s t v (throw i rest ended front) = record {
    once = λ j. ground (arith, v.once j, ap (count j) front);
    counted = v.counted;
    closing = v.closing;
    quiet = v.quiet;
  }

  Reach-Inv : (s t : Serving W D) → Inv s → Reach p x k dispatch max_pipeline s t → Inv t
  Reach-Inv s t v here = v
  Reach-Inv s t v (next {t = m} before step) = Step-Inv m t (Reach-Inv s m v before) step

  -- NonBlockSession.Serve from its start, with no request and no goroutine yet, whatever its
  -- goroutines and the connections do: each request that came in stands in exactly one place (with its
  -- goroutine, in the channel, written back, or dropped after a write failed), no other request
  -- stands anywhere; and the channel is still open, or no goroutine is left that could send on it.
  pub serve_once :
      (s t : Serving W D) (i : ℕ)
      → Starting s
      → Reach p x k dispatch max_pipeline s t
      → (stands i t ≡ (if ltb i t.next then 1 else 0))
        × ((t.tasks_closed ≡ false) ⊎ ((t.started ≡ []) × (t.handled ≡ [])))
  serve_once s t i start steps =
      let v = Reach-Inv s t (Starting-Inv s start) steps in
      (
        v.once i,
        elim (Bool-cases t.tasks_closed) [
          | inr opened ↦ inl opened
          | inl closed ↦ inr (
            nobody_left t.started (omega (arith, v.counted, v.quiet closed)),
            nobody_left t.handled (omega (arith, v.counted, v.quiet closed)),
          )
        ],
      )
