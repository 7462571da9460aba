-- ===== src/Conn/LoadBalancer/System/Kept.antt =====
-- What no operation of a connection does to a request: change its type, or give a WaitGroup to one
-- that has none.
use rpc_proxy.Prelude.{
  ℕ, ◌≡◌, refl, sym, ap, ◌∙◌, Option, none, some, List, [], ◌∷◌, arith, ◌==◌, update, lookup, erase,
  subst, Option-cases, Bool-cases, inl, inr,
}
use rpc_proxy.Errors.{Error}
use rpc_proxy.Thrift.{Protocol, message_type_heart_beat, message_type_stop}
use rpc_proxy.Framing.Output.{Sink}
use rpc_proxy.Request.{Request, replace_seq_id, restore_seq_id, decode_thrift_typ_id_seq_id}
use rpc_proxy.Conn.{Conn, done, drain, enqueue, set_response_failed, complete, answer}
use rpc_proxy.Conn.LoadBalancer.{
  mark_conn_active_false, push_back, handle, set_response, fail_all, close_input, flush_requests,
  run_end,
}
use rpc_proxy.Conn.LoadBalancer.Release.{Quiet, mark-keeps}
use rpc_proxy.Conn.LoadBalancer.System.{send_frame, after_flush, Writer}

-- A request afterwards, beside what it was.
abbrev pub Same : Request → Request → Type 0
Same q q' = (q'.type_id ≡ q.type_id) × (q.wait ≡ none → q'.wait ≡ none)

Same-trans : (a b c : Request) → Same a b → Same b c → Same a c
Same-trans a b c h g = (g.0 ∙ h.0, λ w. g.1 (h.1 w))

pub done-Same : (q q' : Request) → done q ≡ some q' → Same q q'
unfolding done
done-Same q q' h = (ground (arith, h), λ w. ground (arith, h, w))

module _ {W : Type 0} where
  abbrev pub Kept : Conn W → Conn W → Type 0
  Kept s t = (x : ℕ) → Same (s.requests x) (t.requests x)

  pub Kept-trans : (s t u : Conn W) → Kept s t → Kept t u → Kept s u
  Kept-trans s t u h g x = Same-trans (s.requests x) (t.requests x) (u.requests x) (h x) (g x)

  -- A heartbeat that nobody waits for stays one.
  pub Kept-Quiet : (s t : Conn W) → Kept s t → Quiet s → Quiet t
  Kept-Quiet s t h q x ping = (h x).1 (q x (sym (h x).0 ∙ ping))

  pub one-Kept :
      (s t : Conn W) (r : ℕ) (q : Request)
      → t.requests ≡ update s.requests r q
      → Same (s.requests r) q
      → Kept s t
  one-Kept s t r q e same x =
      let at_x : t.requests x ≡ update s.requests r q x = ap (λ (f : ℕ → Request). f x) e in
      (ground (arith, at_x, same.0), λ w. ground (arith, at_x, same.1))

  pub enqueue-Kept : (r : ℕ) (s t : Conn W) → enqueue r s ≡ some t → Kept s t
  unfolding enqueue
  enqueue-Kept r s t h x = (ground (arith, h), λ w. ground (arith, h, w))

  pub push_back-Kept : (r : ℕ) (s t : Conn W) → push_back r s ≡ some t → Kept s t
  unfolding push_back
  push_back-Kept r s t h =
      let named = record s {
        requests = update s.requests r (record (s.requests r) { service = s.service_name });
      } in
      Kept-trans s named t (λ x. (ground arith, λ w. ground (arith, w))) (enqueue-Kept r named t h)

  set_response_failed-Kept :
      (r : ℕ) (e : Error) (s t : Conn W) (f : Option Error)
      → set_response_failed r e s ≡ some (t, f)
      → Kept s t
  unfolding set_response_failed done
  set_response_failed-Kept r e s t f h x = (ground (arith, h), λ w. ground (arith, h, w))

  complete-Kept :
      (p : Protocol) (type_id : ℕ) (bytes : List ℕ) (r : ℕ) (s t : Conn W) (e : Option Error)
      → complete p type_id bytes r s ≡ some (t, e)
      → Kept s t
  unfolding complete done restore_seq_id
  complete-Kept p type_id bytes r s t e h x = (ground (arith, h), λ w. ground (arith, h, w))

  pub answer-Kept :
      (p : Protocol) (now type_id seq_id : ℕ) (bytes : List ℕ) (s t : Conn W) (e : Option Error)
      → answer p now type_id seq_id bytes s ≡ some (t, e)
      → Kept s t
  unfolding answer
  answer-Kept p now type_id seq_id bytes s t e h =
      elim (Bool-cases (type_id == message_type_heart_beat)) [
        | inl ping ↦ λ x. (ground (arith, h, ping), λ w. ground (arith, h, ping, w))
        | inr other ↦ elim (Option-cases (lookup seq_id s.pending)) [
          | inl missing ↦
              λ x. (ground (arith, h, other, missing), λ w. ground (arith, h, other, missing, w))
          | inr (r, found) ↦
              complete-Kept p type_id bytes r (record s { pending = erase seq_id s.pending }) t e
                (ground (arith, h, other, found))
        ]
      ]

  pub drain-Kept : (e : Error) (rs : List ℕ) (s t : Conn W) → drain e rs s ≡ some t → Kept s t
  unfolding drain
  drain-Kept e [] s t h = λ x. (ground (arith, h), λ w. ground (arith, h, w))
  drain-Kept e (r ∷ rs) s t h = elim (Option-cases (set_response_failed r e s)) [
    | inl panics ↦ absurd (ground (arith, h, panics))
    | inr ((u, f), failed) ↦
        Kept-trans s u t (set_response_failed-Kept r e s u f failed)
          (drain-Kept e rs u t (ground (arith, h, failed)))
  ]

  mark-Kept : (s t : Conn W) → mark_conn_active_false s ≡ some t → Kept s t
  mark-Kept s t h x =
      let same : t.requests x ≡ s.requests x =
        ap (λ (u : Conn W). u.requests x) (mark-keeps s t h).0 in
      (ap (λ (q : Request). q.type_id) same, λ w. ap (λ (q : Request). q.wait) same ∙ w)

  fail_all-Kept : (e : Error) (m : List (ℕ × ℕ)) (s t : Conn W) → fail_all e m s ≡ some t → Kept s t
  unfolding fail_all
  fail_all-Kept e [] s t h = λ x. (ground (arith, h), λ w. ground (arith, h, w))
  fail_all-Kept e ((k, r) ∷ m) s t h =
      elim (Bool-cases ((s.requests r).type_id == message_type_heart_beat)) [
        | inl ping ↦ fail_all-Kept e m s t (rw (ping, fail_all) at h)
        | inr other ↦ elim (Option-cases (done (record (s.requests r) { response_err = some e }))) [
          | inl panics ↦ absurd (ground (arith, h, other, panics))
          | inr (q, d) ↦
              let u = record s { requests = update s.requests r q } in
              let same : Same (s.requests r) q =
                done-Same (record (s.requests r) { response_err = some e }) q d in
              Kept-trans s u t (one-Kept s u r q refl same)
                (fail_all-Kept e m u t (ground (arith, h, other, d)))
        ]
      ]

  handle-Kept :
      (p : Protocol) (now : ℕ) (bytes : List ℕ) (a : ℕ × ℕ × Option Error) (s t : Conn W)
      (e : Option Error)
      → handle p now bytes a s ≡ some (t, e)
      → Kept s t
  unfolding handle
  handle-Kept p now bytes (type_id, seq_id, some err) s t e h =
      λ x. (ground (arith, h), λ w. ground (arith, h, w))
  handle-Kept p now bytes (type_id, seq_id, none) s t e h =
      elim (Bool-cases (type_id == message_type_stop)) [
        | inl stopping ↦ elim (Option-cases (mark_conn_active_false s)) [
          | inl panics ↦ absurd (ground (arith, h, stopping, panics))
          | inr (m, marked) ↦
              let last : m ≡ t = ground (arith, h, stopping, marked) in
              subst (Kept s) last (mark-Kept s m marked)
        ]
        | inr other ↦ answer-Kept p now type_id seq_id bytes s t e (ground (arith, h, other))
      ]

  pub flush_requests-Kept : (e : Error) (s t : Conn W) → flush_requests e s ≡ some t → Kept s t
  unfolding flush_requests close_input
  flush_requests-Kept e s t h = elim (Option-cases (mark_conn_active_false s)) [
    | inl panics ↦ absurd (ground (arith, h, panics))
    | inr (m, marked) ↦ elim (Option-cases (fail_all e m.pending (record m { pending = [] }))) [
      | inl panics ↦ absurd (ground (arith, h, marked, panics))
      | inr (u, failed) ↦
          let last : t.requests ≡ u.requests = ground (arith, h, marked, failed) in
          Kept-trans s m t (mark-Kept s m marked) λ x.
            let k = fail_all-Kept e m.pending (record m { pending = [] }) u failed x in
            (
              ground (arith, k.0, ap (λ (f : ℕ → Request). f x) last),
              λ w. ap (λ (f : ℕ → Request). (f x).wait) last ∙ k.1 w,
            )
    ]
  ]

  pub run_end-Kept : (e : Option Error) (s t : Conn W) → run_end e s ≡ some t → Kept s t
  unfolding run_end
  run_end-Kept e s t h = elim (Option-cases (mark_conn_active_false s)) [
    | inl panics ↦ absurd (ground (arith, h, panics))
    | inr (m, marked) ↦
        Kept-trans s m t (mark-Kept s m marked) (rest e m t (ground (arith, h, marked)))
  ]
    where
      rest :
          (e : Option Error) (m t : Conn W)
          → elim e as (λ _. Option (Conn W)) [ none ↦ some m | some err ↦ drain err m.input m ]
            ≡ some t
          → Kept m t
      rest none m t h = λ x. (ground (arith, h), λ w. ground (arith, h, w))
      rest (some err) m t h = drain-Kept err m.input m t h

  pub set_response-Kept :
      (p : Protocol) (now : ℕ) (bytes : List ℕ) (s t : Conn W) (e : Option Error)
      → set_response p now bytes s ≡ some (t, e)
      → Kept s t
  unfolding set_response
  set_response-Kept p now bytes s t e h =
      handle-Kept p now bytes (decode_thrift_typ_id_seq_id p bytes) s t e h

module _ (k : Sink) (p : Protocol) where
  open k use {W}

  replace-Same : (seq : ℕ) (q q' : Request) → replace_seq_id p seq q ≡ some q' → Same q q'
  unfolding replace_seq_id
  replace-Same seq q q' h = (ground (arith, h), λ w. ground (arith, h, w))

  pub send_frame-Kept :
      (now later r : ℕ) (s t : Conn W) (e : Option Error)
      → send_frame k p now later r s ≡ some (t, e)
      → Kept s t
  unfolding send_frame
  send_frame-Kept now later r s t e h =
      elim (Option-cases (replace_seq_id p s.current_seq_id (s.requests r))) [
        | inl panics ↦ absurd (ground (arith, h, panics))
        | inr (q, replaced) ↦
            one-Kept s t r q (ground (arith, h, replaced))
              (replace-Same s.current_seq_id (s.requests r) q replaced)
      ]

  pub after_flush-Kept :
      (r : ℕ) (s t : Conn W) (e : Option Error) (w : Writer)
      → after_flush r (s, e) ≡ some (t, w)
      → Kept s t
  after_flush-Kept r s t none w h = λ x. (ground (arith, h), λ w. ground (arith, h, w))
  after_flush-Kept r s t (some e) w h = elim (Option-cases (set_response_failed r e s)) [
    | inl panics ↦ absurd (ground (arith, h, panics))
    | inr ((u, f), failed) ↦
        let last : u ≡ t = ground (arith, h, failed) in
        subst (Kept s) last (set_response_failed-Kept r e s u f failed)
  ]
