-- ===== src/Conn/LoadBalancer/System/Reached.antt =====
-- What holds in every state that the goroutines of a connection reach.
use rpc_proxy.Prelude.{
  ℕ, ◌≡◌, refl, ap, subst, Option, none, some, List, [], ◌∷◌, arith, lookup, Option-cases, inl, inr,
}
use rpc_proxy.Errors.{Error}
use rpc_proxy.Thrift.{Protocol}
use rpc_proxy.Framing.Output.{Sink}
use rpc_proxy.Request.{Request, replace_seq_id, decode_thrift_typ_id_seq_id}
use rpc_proxy.Conn.{Conn}
use rpc_proxy.Conn.Accounts.{Accounts, count, insert_fresh, insert-UniqueKeys}
use rpc_proxy.Conn.Steps.{set_response_failed-Accounts}
use rpc_proxy.Conn.LoadBalancer.{set_response}
use rpc_proxy.Conn.LoadBalancer.Release.{Quiet}
use rpc_proxy.Conn.LoadBalancer.System.{
  System, Writer, flushed_out, left, hand, register, after_flush, send_frame, Step, push, tick_ping,
  tick_end, tick_late, tick_time_out, receive, closed, skip, send, enter, finish, read, break,
  Reach, here, next, HonestAnswer,
}
use rpc_proxy.Conn.LoadBalancer.System.Counters.{
  same-Accounts, push_back-Accounts, ping-Accounts, flush-Accounts, run_end-Accounts,
  handle-Accounts,
}
use rpc_proxy.Conn.LoadBalancer.System.Kept.{
  Kept-Quiet, Kept-trans, push_back-Kept, set_response-Kept, flush_requests-Kept, run_end-Kept,
  send_frame-Kept, after_flush-Kept,
}

module _ {W : Type 0} where
  -- Each WaitGroup counts the places of its request (with loopWriter, in the queue, in the table), and
  -- nobody waits for a heartbeat.
  pub record Inv (s : System W) : Type 0 where
    pub accounts : Accounts (hand s.writer) s.conn
    pub quiet : Quiet s.conn

  pub received-Accounts :
      (r : ℕ) (rest : List ℕ) (s : Conn W)
      → Accounts [] s
      → s.input ≡ r ∷ rest
      → Accounts (r ∷ []) (record s { input = rest })
  received-Accounts r rest s a front =
      same-Accounts [] (r ∷ []) s (record s { input = rest }) a refl
        (λ x. ground (arith, ap (count x) front)) (λ x. refl)

  pub skipped-Accounts :
      (r : ℕ) (s : Conn W) → Accounts (r ∷ []) s → (s.requests r).wait ≡ none → Accounts [] s
  skipped-Accounts r s a nobody = record {
    keys = a.keys;
    waits = λ x n h. ground (arith, a.waits x n h);
  }

  pub entered-Accounts :
      (r : ℕ) (s : Conn W)
      → Accounts (r ∷ []) s
      → lookup (s.requests r).response_seq_id s.pending ≡ none
      → Accounts [] (register r s)
  entered-Accounts r s a free = record {
    keys = insert-UniqueKeys (s.requests r).response_seq_id r s.pending a.keys;
    waits = λ x n h.
        ground
          (arith, a.waits x n h, insert_fresh (s.requests r).response_seq_id r x s.pending free);
  }

  pub after_flush-Accounts :
      (r : ℕ) (s t : Conn W) (e : Option Error) (w : Writer)
      → Accounts (r ∷ []) s
      → after_flush r (s, e) ≡ some (t, w)
      → Accounts (hand w) t
  after_flush-Accounts r s t none w a h =
      let last : s ≡ t = ground (arith, h) in
      let at_w : flushed_out r ≡ w = ground (arith, h) in
      subst (λ (v : Writer). Accounts (hand v) t) at_w (subst (Accounts (r ∷ [])) last a)
  after_flush-Accounts r s t (some e) w a h =
      let (u, go, b, _) = set_response_failed-Accounts [] r e s a in
      let last : u ≡ t = ground (arith, h, go) in
      let at_w : left (some e) ≡ w = ground (arith, h, go) in
      subst (λ (v : Writer). Accounts (hand v) t) at_w (subst (Accounts []) last b)

module _ (k : Sink) (p : Protocol) where
  open k use {W}

  replace_waits : (seq : ℕ) (q q' : Request) → replace_seq_id p seq q ≡ some q' → q'.wait ≡ q.wait
  unfolding replace_seq_id
  replace_waits seq q q' h = ground (arith, h)

  pub sent-Accounts :
      (now later r : ℕ) (xs : List ℕ) (s t : Conn W) (e : Option Error)
      → Accounts xs s
      → send_frame k p now later r s ≡ some (t, e)
      → Accounts xs t
  unfolding send_frame
  sent-Accounts now later r xs s t e a h =
      elim (Option-cases (replace_seq_id p s.current_seq_id (s.requests r))) [
        | inl panics ↦ absurd (ground (arith, h, panics))
        | inr (q, replaced) ↦
            let same = replace_waits s.current_seq_id (s.requests r) q replaced in
            same-Accounts xs xs s t a (ground (arith, h, replaced))
              (λ x. ground (arith, h, replaced)) (λ x. ground (arith, h, replaced, same))
      ]

  answered-Accounts :
      (now : ℕ) (bytes : List ℕ) (s : System W) (t : Conn W) (e : Option Error)
      → Inv s
      → HonestAnswer k p s bytes
      → set_response p now bytes s.conn ≡ some (t, e)
      → Accounts (hand s.writer) t
  unfolding set_response
  answered-Accounts now bytes s t e i honest h =
      handle-Accounts p now bytes (hand s.writer) (decode_thrift_typ_id_seq_id p bytes) s.conn t e
        i.accounts (λ ping r found. i.quiet r (honest ping r found)) h

  pub Step-Inv : (s t : System W) → Inv s → Step k p s t → Inv t
  Step-Inv s t i (push {t = u} r other room opened h) = record {
    accounts = push_back-Accounts (hand s.writer) r s.conn u i.accounts opened h;
    quiet = Kept-Quiet s.conn u (push_back-Kept r s.conn u h) i.quiet;
  }
  Step-Inv s t i (tick_ping {t = u} now fresh beats beat free room opened h) =
      let (a, q) =
        ping-Accounts p (hand s.writer) now fresh s.conn u i.accounts i.quiet free opened h in
      record { accounts = a; quiet = q }
  Step-Inv s t i (tick_end now beats stops) = record { accounts = i.accounts; quiet = i.quiet }
  Step-Inv s t i (tick_late now beats late) = record { accounts = i.accounts; quiet = i.quiet }
  Step-Inv s t i (tick_time_out sends at_select) = record {
    accounts = subst (λ (w : Writer). Accounts (hand w) s.conn) at_select i.accounts;
    quiet = i.quiet;
  }
  Step-Inv s t i (receive r rest at_select front) = record {
    accounts =
        received-Accounts r rest s.conn
          (subst (λ (w : Writer). Accounts (hand w) s.conn) at_select i.accounts) front;
    quiet = i.quiet;
  }
  Step-Inv s t i (closed at_select empty shut) = record {
    accounts = subst (λ (w : Writer). Accounts (hand w) s.conn) at_select i.accounts;
    quiet = i.quiet;
  }
  Step-Inv s t i (skip unix r has old) = record {
    accounts =
        skipped-Accounts r s.conn (subst (λ (w : Writer). Accounts (hand w) s.conn) has i.accounts)
          (i.quiet r (ground arith));
    quiet = i.quiet;
  }
  Step-Inv s t i (send {t = u} {u = v} {e = e} {w = w} unix now later r has keep go h) =
      let a = subst (λ (w : Writer). Accounts (hand w) s.conn) has i.accounts in
      let b = sent-Accounts now later r (r ∷ []) s.conn u e a go in
      record {
        accounts = after_flush-Accounts r u v e w b h;
        quiet =
            Kept-Quiet s.conn v
              (Kept-trans s.conn u v (send_frame-Kept k p now later r s.conn u e go)
                (after_flush-Kept k p r u v e w h))
              i.quiet;
      }
  Step-Inv s t i (enter r has free) = record {
    accounts =
        entered-Accounts r s.conn (subst (λ (w : Writer). Accounts (hand w) s.conn) has i.accounts)
          free;
    quiet = i.quiet;
  }
  Step-Inv s t i (finish {t = u} e beats left_so h) = record {
    accounts =
        run_end-Accounts e s.conn u
          (subst (λ (w : Writer). Accounts (hand w) s.conn) left_so i.accounts) h;
    quiet = Kept-Quiet s.conn u (run_end-Kept e s.conn u h) i.quiet;
  }
  Step-Inv s t i (read {t = u} {e = e} now bytes runs honest h) = record {
    accounts = answered-Accounts now bytes s u e i honest h;
    quiet = Kept-Quiet s.conn u (set_response-Kept p now bytes s.conn u e h) i.quiet;
  }
  Step-Inv s t i (break {t = u} e runs h) = record {
    accounts = flush-Accounts (hand s.writer) e s.conn u i.accounts i.quiet h;
    quiet = Kept-Quiet s.conn u (flush_requests-Kept e s.conn u h) i.quiet;
  }

  -- The interleaved goroutines of a connection: wherever each WaitGroup counts the places of its
  -- request (with loopWriter, in the queue, in the table) and nobody waits for a heartbeat, the same
  -- holds in every state that any sequence of their steps reaches, under the premises that
  -- the steps have.
  pub Reach-Inv : (s t : System W) → Inv s → Reach k p s t → Inv t
  Reach-Inv s t i here = i
  Reach-Inv s t i (next {t = m} before step) = Step-Inv m t (Reach-Inv s m i before) step
