-- ===== src/Conn/Proxy/System/Reached.antt =====
-- What holds in every state that the goroutines of a proxy's connection reach.
use rpc_proxy.Prelude.{
  ℕ, ◌≡◌, Bool, true, false, Option, some, List, [], ◌∷◌, arith, subst, if◌then◌else◌,
}
use rpc_proxy.Errors.{Error}
use rpc_proxy.Thrift.{Protocol}
use rpc_proxy.Framing.Output.{Sink}
use rpc_proxy.Request.{decode_thrift_typ_id_seq_id}
use rpc_proxy.Conn.{Conn}
use rpc_proxy.Conn.Accounts.{Accounts}
use rpc_proxy.Conn.LoadBalancer.Release.{Quiet}
use rpc_proxy.Conn.LoadBalancer.System.Kept.{
  Kept, Kept-trans, Kept-Quiet, send_frame-Kept, after_flush-Kept,
}
use rpc_proxy.Conn.LoadBalancer.System.Reached.{
  received-Accounts, skipped-Accounts, entered-Accounts, after_flush-Accounts, sent-Accounts,
}
use rpc_proxy.Conn.Proxy.{set_response}
use rpc_proxy.Conn.Proxy.System.{
  System, Phase, opening, stopped, in_hand, HonestAnswer, Step, push, tick_ping, offline, connect,
  give_up, tick_end, tick_late, tick_time_out, receive, closed, skip, send, enter, finish, read,
  break, Reach, here, next,
}
use rpc_proxy.Conn.Proxy.System.Counters.{
  SamePlaces-Kept, SamePlaces-Accounts, offline_places, ok_places, push_back-Kept,
  push_back-Accounts, ping-Accounts, flush-Kept, flush-Accounts, run_end-Accounts, handle-Accounts,
}

module _ {W : Type 0} where
  -- Each WaitGroup counts the places of its request (with loopWriter, in the queue, in the table), and
  -- nobody waits for a heartbeat.
  pub record Inv (s : System W) : Type 0 where
    pub accounts : Accounts (in_hand s.phase) s.conn
    pub quiet : Quiet s.conn

  at_phase : (s : System W) (x : Phase) → s.phase ≡ x → Inv s → Accounts (in_hand x) s.conn
  at_phase s x e i = subst (λ (y : Phase). Accounts (in_hand y) s.conn) e i.accounts

  after_end :
      (again : Bool) (t : Conn W)
      → Accounts [] t
      → Accounts (in_hand (if again then opening else stopped)) t
  after_end true t a = a
  after_end false t a = a

module _ (k : Sink) (p : Protocol) where
  open k use {W}

  answered-Inv :
      (now : ℕ) (bytes : List ℕ) (s : System W) (t : Conn W) (e : Option Error)
      → Inv s
      → HonestAnswer k p s.conn bytes
      → set_response p now bytes s.conn ≡ some (t, e)
      → Accounts (in_hand s.phase) t × Kept s.conn t
  unfolding set_response
  answered-Inv now bytes s t e i honest h =
      handle-Accounts p now bytes (in_hand s.phase) (decode_thrift_typ_id_seq_id p bytes) s.conn t e
        i.accounts (λ ping r found. i.quiet r (honest ping r found)) h

  Step-Inv : (s t : System W) → Inv s → Step k p s t → Inv t
  Step-Inv s t i (push {t = u} r other room opened h) = record {
    accounts = push_back-Accounts (in_hand s.phase) r s.conn u i.accounts opened h;
    quiet = Kept-Quiet s.conn u (push_back-Kept r s.conn u h) i.quiet;
  }
  Step-Inv s t i (tick_ping {t = u} now fresh beats beat free room opened h) =
      let (a, q) =
        ping-Accounts p (in_hand s.phase) now fresh s.conn u i.accounts i.quiet free opened h in
      record { accounts = a; quiet = q }
  Step-Inv s t i (offline {t = u} h) =
      let same = offline_places s.conn u h in
      record {
        accounts = SamePlaces-Accounts (in_hand s.phase) s.conn u same i.accounts;
        quiet = Kept-Quiet s.conn u (SamePlaces-Kept s.conn u same) i.quiet;
      }
  Step-Inv s t i (connect {t = u} now c opens h) =
      let same = ok_places s.conn u h in
      let a = SamePlaces-Accounts [] s.conn u same (at_phase s opening opens i) in
      record {
        accounts = record { keys = a.keys; waits = a.waits };
        quiet = Kept-Quiet s.conn u (SamePlaces-Kept s.conn u same) i.quiet;
      }
  Step-Inv s t i (give_up opens) = record { accounts = at_phase s opening opens i; quiet = i.quiet }
  Step-Inv s t i (tick_end now beats stops) = record { accounts = i.accounts; quiet = i.quiet }
  Step-Inv s t i (tick_late now beats late) = record { accounts = i.accounts; quiet = i.quiet }
  Step-Inv s t i (tick_time_out sends at_select) = record {
    accounts = at_phase s _ at_select i;
    quiet = i.quiet;
  }
  Step-Inv s t i (receive r rest at_select front) = record {
    accounts = received-Accounts r rest s.conn (at_phase s _ at_select i) front;
    quiet = i.quiet;
  }
  Step-Inv s t i (closed at_select empty shut) = record {
    accounts = at_phase s _ at_select i;
    quiet = i.quiet;
  }
  Step-Inv s t i (skip unix r has old) = record {
    accounts = skipped-Accounts r s.conn (at_phase s _ has i) (i.quiet r (ground arith));
    quiet = i.quiet;
  }
  Step-Inv s t i (send {t = u} {u = v} {e = e} {w = w} unix now later r has keep go h) =
      let b = sent-Accounts k p now later r (r ∷ []) s.conn u e (at_phase s _ has i) go in
      record {
        accounts = after_flush-Accounts r u v e w b h;
        quiet =
            Kept-Quiet s.conn v
              (Kept-trans s.conn u v (send_frame-Kept k p now later r s.conn u e go)
                (after_flush-Kept k p r u v e w h))
              i.quiet;
      }
  Step-Inv s t i (enter r has free) = record {
    accounts = entered-Accounts r s.conn (at_phase s _ has i) free;
    quiet = i.quiet;
  }
  Step-Inv s t i (finish {t = u} {again = again} e beats left_so h) =
      let (a, kept) = run_end-Accounts e s.conn u again (at_phase s _ left_so i) h in
      record { accounts = after_end again u a; quiet = Kept-Quiet s.conn u kept i.quiet }
  Step-Inv s t i (read {t = u} {e = e} now n bytes runs honest h) =
      let (a, kept) = answered-Inv now bytes s u e i honest h in
      record { accounts = a; quiet = Kept-Quiet s.conn u kept i.quiet }
  Step-Inv s t i (break {t = u} n e runs h) = record {
    accounts = flush-Accounts (in_hand s.phase) e s.conn u i.accounts h;
    quiet = Kept-Quiet s.conn u (flush-Kept e s.conn u h) i.quiet;
  }

  -- The interleaved goroutines of a proxy's connection, over all the transports that it opens: wherever
  -- each WaitGroup counts the places of its request (with loopWriter, in the queue, in the table) and
  -- nobody waits for a heartbeat, the same holds in every state that any sequence of their steps
  -- reaches, under the premises that the steps have.
  pub Reach-Counted : (s t : System W) → Inv s → Reach k p s t → Inv t
  Reach-Counted s t i here = i
  Reach-Counted s t i (next {t = m} before step) = Step-Inv m t (Reach-Counted s m i before) step
