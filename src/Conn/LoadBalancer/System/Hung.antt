-- ===== src/Conn/LoadBalancer/System/Hung.antt =====
-- Run after a heartbeat timeout: Heartbeat has broken its loop, and nobody receives what loopWriter sends on
-- hbStop when it returns.
use rpc_proxy.Prelude.{
  ℕ, ◌<◌, ◌≡◌, ◌≢◌, refl, ap, ◌∙◌, Option, none, some, List, [], ◌∷◌, ◌++◌, arith, ◌==◌, update,
  lookup, erase, Option-cases, Bool-cases, inl, inr,
}
use rpc_proxy.Errors.{Error, hb_timeout}
use rpc_proxy.Thrift.{Protocol, message_type_heart_beat, message_type_stop}
use rpc_proxy.Framing.Output.{Sink}
use rpc_proxy.Request.{decode_thrift_typ_id_seq_id}
use rpc_proxy.Conn.{Conn, time_out, done, enqueue, answer, complete}
use rpc_proxy.Conn.Accounts.{count, count-++}
use rpc_proxy.Conn.LoadBalancer.{
  mark_conn_active_false, push_back, heartbeat, handle, set_response, flush_requests, fail_all,
  close_input,
}
use rpc_proxy.Conn.LoadBalancer.Release.{mark-keeps}
use rpc_proxy.Conn.LoadBalancer.System.{
  System, selecting, left, ticking, ended, Step, push, tick_ping, tick_end, tick_late,
  tick_time_out, receive, closed, skip, send, enter, finish, read, break, Reach, here, next,
}
use rpc_proxy.Conn.LoadBalancer.System.Reached.{Inv, Reach-Inv}

module _ {W : Type 0} where
  queued : (r : ℕ) (s t : Conn W) → push_back r s ≡ some t → t.input ≡ s.input ++ r ∷ []
  unfolding push_back enqueue
  queued r s t h = ground (arith, h)

  fail_all_keeps :
      (e : Error) (m : List (ℕ × ℕ)) (s t : Conn W) → fail_all e m s ≡ some t → t.input ≡ s.input
  unfolding fail_all
  fail_all_keeps e [] s t h = ground (arith, h)
  fail_all_keeps e ((k, r) ∷ m) s t h =
      elim (Bool-cases ((s.requests r).type_id == message_type_heart_beat)) [
        | inl ping ↦ fail_all_keeps e m s t (rw (ping, fail_all) at h)
        | inr other ↦ elim (Option-cases (done (record (s.requests r) { response_err = some e }))) [
          | inl panics ↦ absurd (ground (arith, h, other, panics))
          | inr (q, d) ↦
              fail_all_keeps e m (record s { requests = update s.requests r q }) t
                (ground (arith, h, other, d))
        ]
      ]

  flush_keeps : (e : Error) (s t : Conn W) → flush_requests e s ≡ some t → t.input ≡ s.input
  unfolding flush_requests close_input
  flush_keeps e s t h = elim (Option-cases (mark_conn_active_false s)) [
    | inl panics ↦ absurd (ground (arith, h, panics))
    | inr (m, marked) ↦ elim (Option-cases (fail_all e m.pending (record m { pending = [] }))) [
      | inl panics ↦ absurd (ground (arith, h, marked, panics))
      | inr (u, failed) ↦
          let last : t.input ≡ u.input = ground (arith, h, marked, failed) in
          last
          ∙ fail_all_keeps e m.pending (record m { pending = [] }) u failed
          ∙ ap (λ (v : Conn W). v.input) (mark-keeps s m marked).0
    ]
  ]

  completed_keeps :
      (p : Protocol) (type_id : ℕ) (bytes : List ℕ) (r : ℕ) (s t : Conn W) (e : Option Error)
      → complete p type_id bytes r s ≡ some (t, e)
      → t.input ≡ s.input
  unfolding complete
  completed_keeps p type_id bytes r s t e h = ground (arith, h)

  answered_keeps :
      (p : Protocol) (now type_id seq_id : ℕ) (bytes : List ℕ) (s t : Conn W) (e : Option Error)
      → answer p now type_id seq_id bytes s ≡ some (t, e)
      → t.input ≡ s.input
  unfolding answer
  answered_keeps p now type_id seq_id bytes s t e h =
      elim (Bool-cases (type_id == message_type_heart_beat)) [
        | inl ping ↦ ground (arith, h, ping)
        | inr other ↦ elim (Option-cases (lookup seq_id s.pending)) [
          | inl missing ↦ ground (arith, h, other, missing)
          | inr (r, found) ↦
              completed_keeps p type_id bytes r (record s { pending = erase seq_id s.pending }) t e
                (ground (arith, h, other, found))
        ]
      ]

  handled_keeps :
      (p : Protocol) (now : ℕ) (bytes : List ℕ) (b : ℕ × ℕ × Option Error) (s t : Conn W)
      (e : Option Error)
      → handle p now bytes b s ≡ some (t, e)
      → t.input ≡ s.input
  unfolding handle
  handled_keeps p now bytes (type_id, seq_id, some err) s t e h = ground (arith, h)
  handled_keeps p now bytes (type_id, seq_id, none) s t e h =
      elim (Bool-cases (type_id == message_type_stop)) [
        | inl stopping ↦ elim (Option-cases (mark_conn_active_false s)) [
          | inl panics ↦ absurd (ground (arith, h, stopping, panics))
          | inr (m, marked) ↦
              let last : t ≡ m = ground (arith, h, stopping, marked) in
              ap (λ (u : Conn W). u.input) (last ∙ (mark-keeps s m marked).0)
        ]
        | inr other ↦ answered_keeps p now type_id seq_id bytes s t e (ground (arith, h, other))
      ]

  read_keeps :
      (p : Protocol) (now : ℕ) (bytes : List ℕ) (s t : Conn W) (e : Option Error)
      → set_response p now bytes s ≡ some (t, e)
      → t.input ≡ s.input
  unfolding set_response
  read_keeps p now bytes s t e h =
      handled_keeps p now bytes (decode_thrift_typ_id_seq_id p bytes) s t e h

  -- loopWriter has left with a heartbeat timeout, Heartbeat is over, and request r is queued.
  pub record Waiting (r : ℕ) (s : System W) : Type 0 where
    pub over_beat : s.beat ≡ ended
    pub at_stop : s.writer ≡ left (some hb_timeout)
    pub in_queue : 0 < count r s.conn.input

  -- loopWriter has received the heartbeat's timeout.
  abbrev pub timed_out : System W → System W
  timed_out s = record s { writer = left (some hb_timeout); beat = ended }

  same_queue :
      (r : ℕ) (s t : System W)
      → Waiting r s
      → t.beat ≡ s.beat
      → t.writer ≡ s.writer
      → t.conn.input ≡ s.conn.input
      → Waiting r t
  same_queue r s t h b w q = record {
    over_beat = b ∙ h.over_beat;
    at_stop = w ∙ h.at_stop;
    in_queue = omega (arith, h.in_queue, ap (count r) q);
  }

module _ (k : Sink) (p : Protocol) where
  open k use {W}

  step-Waiting : (r : ℕ) (s t : System W) → Waiting r s → Step k p s t → Waiting r t
  step-Waiting r s t h (push {t = u} x other room opened go) = record {
    over_beat = h.over_beat;
    at_stop = h.at_stop;
    in_queue =
        omega (
          arith,
          h.in_queue,
          ap (count r) (queued x s.conn u go),
          count-++ r s.conn.input (x ∷ []),
        );
  }
  step-Waiting r s t h (tick_ping now fresh beats beat free room opened go) =
      absurd (ground (arith, h.over_beat, beats))
  step-Waiting r s t h (tick_end now beats stops) = absurd (ground (arith, h.over_beat, beats))
  step-Waiting r s t h (tick_late now beats late) = absurd (ground (arith, h.over_beat, beats))
  step-Waiting r s t h (tick_time_out sends at_select) = absurd (ground (arith, h.over_beat, sends))
  step-Waiting r s t h (receive x rest at_select front) =
      absurd (ground (arith, h.at_stop, at_select))
  step-Waiting r s t h (closed at_select empty shut) = absurd (ground (arith, h.at_stop, at_select))
  step-Waiting r s t h (skip unix x has old) = absurd (ground (arith, h.at_stop, has))
  step-Waiting r s t h (send unix now later x has keep go after) =
      absurd (ground (arith, h.at_stop, has))
  step-Waiting r s t h (enter x has free) = absurd (ground (arith, h.at_stop, has))
  step-Waiting r s t h (finish e beats left_so go) = absurd (ground (arith, h.over_beat, beats))
  step-Waiting r s t h (read {t = u} {e = e} now bytes runs honest go) =
      same_queue r s t h refl refl (read_keeps p now bytes s.conn u e go)
  step-Waiting r s t h (break {t = u} e runs go) =
      same_queue r s t h refl refl (flush_keeps e s.conn u go)

  reach-Waiting : (r : ℕ) (s t : System W) → Waiting r s → Reach k p s t → Waiting r t
  reach-Waiting r s t h here = h
  reach-Waiting r s t h (next {t = m} before step) =
      step-Waiting r m t (reach-Waiting r s m h before) step

  -- Where Heartbeat, at a tick, finds that its time is over while loopWriter is at its select, each
  -- WaitGroup counts the places of its request, nobody waits for a heartbeat and a request is in the
  -- queue: the goroutines can reach the state in which loopWriter has received the timeout and left
  -- its loop. In whatever state they reach from there, Run has not got behind loopWriter, and the
  -- request is still in the queue with a WaitGroup that is not at zero: it is not failed, and
  -- whoever waits for it waits for ever.
  pub hung :
      (now r : ℕ) (s v : System W)
      → Inv s
      → s.beat ≡ ticking
      → s.writer ≡ selecting
      → heartbeat now s.conn ≡ time_out
      → 0 < count r s.conn.input
      → Reach k p (timed_out s) v
      → Reach k p s (timed_out s)
        × (v.writer ≡ left (some hb_timeout))
        × (0 < count r v.conn.input)
        × ((v.conn.requests r).wait ≢ some 0)
  hung now r s v i beats at_select late present steps =
      let to_stop = next (next here (tick_late now beats late)) (tick_time_out refl at_select) in
      let w =
        reach-Waiting r (timed_out s) v
          (record { over_beat = refl; at_stop = refl; in_queue = present }) steps in
      let g = Reach-Inv k p (timed_out s) v (Reach-Inv k p s (timed_out s) i to_stop) steps in
      (to_stop, w.at_stop, w.in_queue, λ z. omega (arith, w.in_queue, g.accounts.waits r 0 z))
