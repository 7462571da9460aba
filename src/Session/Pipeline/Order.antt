-- ===== src/Session/Pipeline/Order.antt =====
-- The answers of a client's session go out in the order of its requests.
use mathlib.Core.List.{append_assoc, append-nil}
use rpc_proxy.Prelude.{ℕ, zero, suc, ◌≡◌, sym, ap, ap₂, ◌∙◌, true, List, [], ◌∷◌, ◌++◌, arith}
use rpc_proxy.Framing.Output.{Sink}
use rpc_proxy.Thrift.{Protocol}
use rpc_proxy.Exceptions.{Exceptions}
use rpc_proxy.Session.{Dispatcher}
use rpc_proxy.Session.Pipeline.{
  Pipeline, Step, read, refuse, break, close_tasks, answer, write, fail, throw, Reach, here, next,
}

-- 0, …, n - 1
abbrev pub upto : ℕ → List ℕ
upto zero = []
upto (suc n) = upto n ++ n ∷ []

-- The first task moves to the end of what comes before the tasks.
moved : (xs : List ℕ) (i : ℕ) (rest : List ℕ) → (xs ++ i ∷ []) ++ rest ≡ xs ++ (i ∷ rest)
moved xs i rest = append_assoc xs (i ∷ []) rest

module _ {W D : Type 0} where
  pub record Ordered (s : Pipeline W D) : Type 0 where
    pub in_order : (s.written ++ s.dropped) ++ s.tasks ≡ upto s.next
    pub none_dropped : s.writing ≡ true → s.dropped ≡ []

  -- Serve before its first frame.
  pub record Starting (s : Pipeline W D) : Type 0 where
    pub no_frame : s.next ≡ 0
    pub nothing : (s.tasks ≡ []) × (s.written ≡ []) × (s.dropped ≡ [])

  Starting-Ordered : (s : Pipeline W D) → Starting s → Ordered s
  Starting-Ordered s a =
      let (tasks, written, dropped) = a.nothing in
      record {
        in_order =
            ap₂ (λ (l m : List ℕ). l ++ m) (ap₂ (λ (l m : List ℕ). l ++ m) written dropped) tasks
            ∙ sym (ap upto a.no_frame);
        none_dropped = λ w. dropped;
      }

  behind :
      (s : Pipeline W D) (i : ℕ) (rest : List ℕ)
      → Ordered s
      → s.tasks ≡ i ∷ rest
      → (s.written ++ (s.dropped ++ i ∷ [])) ++ rest ≡ upto s.next
  behind s i rest o front =
      ap (λ l. l ++ rest) (sym (append_assoc s.written s.dropped (i ∷ [])))
      ∙ moved (s.written ++ s.dropped) i rest
      ∙ sym (ap (λ l. (s.written ++ s.dropped) ++ l) front)
      ∙ o.in_order

module _ (p : Protocol) (x : Exceptions) (k : Sink) {D : Type 0} (dispatch : Dispatcher D)
    (max_pipeline : ℕ) where
  open k use {W}

  Step-Ordered : (s t : Pipeline W D) → Ordered s → Step p x k dispatch max_pipeline s t → Ordered t
  Step-Ordered s t o (read unix runs got went room opened) = record {
    in_order =
        sym (append_assoc (s.written ++ s.dropped) s.tasks (s.next ∷ []))
        ∙ ap (λ l. l ++ s.next ∷ []) o.in_order;
    none_dropped = o.none_dropped;
  }
  Step-Ordered s t o (refuse unix runs got went) = record {
    in_order = o.in_order;
    none_dropped = o.none_dropped;
  }
  Step-Ordered s t o (break runs got) = record {
    in_order = o.in_order;
    none_dropped = o.none_dropped;
  }
  Step-Ordered s t o (close_tasks ended opened) = record {
    in_order = o.in_order;
    none_dropped = o.none_dropped;
  }
  Step-Ordered s t o (answer requests) = record {
    in_order = o.in_order;
    none_dropped = o.none_dropped;
  }
  Step-Ordered s t o (write part now later i rest runs front answered sent) =
      let empty = o.none_dropped runs in
      let before : (s.written ++ s.dropped) ≡ s.written =
        ap (λ l. s.written ++ l) empty ∙ append-nil s.written in
      let after : ((s.written ++ i ∷ []) ++ s.dropped) ≡ s.written ++ i ∷ [] =
        ap (λ l. (s.written ++ i ∷ []) ++ l) empty ∙ append-nil (s.written ++ i ∷ []) in
      record {
        in_order =
            ap (λ l. l ++ rest) after
            ∙ moved s.written i rest
            ∙ sym (ap (λ l. l ++ (i ∷ rest)) before)
            ∙ sym (ap (λ l. (s.written ++ s.dropped) ++ l) front)
            ∙ o.in_order;
        none_dropped = λ w. empty;
      }
  Step-Ordered s t o (fail part now later i rest runs front answered sent) = record {
    in_order = behind s i rest o front;
    none_dropped = λ w. absurd (ground (arith, w));
  }
  Step-Ordered s t o (throw i rest ended front) = record {
    in_order = behind s i rest o front;
    none_dropped = λ w. absurd (ground (arith, ended, w));
  }

  Reach-Ordered :
      (s t : Pipeline W D) → Ordered s → Reach p x k dispatch max_pipeline s t → Ordered t
  Reach-Ordered s t o here = o
  Reach-Ordered s t o (next {t = m} before step) =
      Step-Ordered m t (Reach-Ordered s m o before) step

  -- Session.Serve from its start, with no request yet, whatever its goroutines and the connections do:
  -- the requests that were answered, then, where a write failed, those that were dropped, then the
  -- tasks are all the requests that came in, each once and in the order in which they came.
  pub serve_in_order :
      (s t : Pipeline W D)
      → Starting s
      → Reach p x k dispatch max_pipeline s t
      → (t.written ++ t.dropped) ++ t.tasks ≡ upto t.next
  serve_in_order s t start steps = (Reach-Ordered s t (Starting-Ordered s start) steps).in_order
