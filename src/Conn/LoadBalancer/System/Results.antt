-- ===== src/Conn/LoadBalancer/System/Results.antt =====
-- Whoever stops waiting for a request finds a result in it: an answer's bytes or an error.
use rpc_proxy.Prelude.{
  ℕ, ◌≡◌, refl, ap, ◌∙◌, Option, none, some, List, [], ◌∷◌, arith, ◌==◌, update, lookup, erase,
  subst, Option-cases, Bool-cases, inl, inr,
}
use rpc_proxy.Errors.{Error}
use rpc_proxy.Thrift.{Protocol, message_type_heart_beat, message_type_stop}
use rpc_proxy.Framing.Output.{Sink}
use rpc_proxy.Request.{
  Request, replace_seq_id, restore_seq_id, decode_thrift_typ_id_seq_id, new_ping_request,
}
use rpc_proxy.Conn.{Conn, done, drain, enqueue, set_response_failed, complete, answer}
use rpc_proxy.Conn.LoadBalancer.{
  mark_conn_active_false, push_back, push_ping, handle, set_response, fail_all, close_input,
  flush_requests, run_end,
}
use rpc_proxy.Conn.LoadBalancer.Release.{mark-keeps}
use rpc_proxy.Conn.LoadBalancer.System.{send_frame, after_flush, Writer}

-- Nobody has to wait for the request, and it has neither an answer nor an error.
abbrev pub Untold : Request → Type 0
Untold q = (q.wait ≡ some 0) × (q.response_data ≡ none) × (q.response_err ≡ none)

told :
    (e : Error) (q q' : Request) → done (record q { response_err = some e }) ≡ some q' → ¬ Untold q'
unfolding done
told e q q' h (w, d, n) = ground (arith, h, n)

module _ {W : Type 0} where
  -- No request is let go without a result on the way.
  abbrev pub Tells : Conn W → Conn W → Type 0
  Tells s t = (x : ℕ) → Untold (t.requests x) → Untold (s.requests x)

  pub Tells-trans : (s t u : Conn W) → Tells s t → Tells t u → Tells s u
  Tells-trans s t u h g x w = h x (g x w)

  pub same-Tells : (s t : Conn W) → t.requests ≡ s.requests → Tells s t
  same-Tells s t e x w = subst (λ (f : ℕ → Request). Untold (f x)) e w

  pub one-Tells :
      (s t : Conn W) (r : ℕ) (q : Request)
      → t.requests ≡ update s.requests r q
      → (Untold q → Untold (s.requests r))
      → Tells s t
  one-Tells s t r q e keeps x w = elim (Bool-cases (r == x)) [
    | inl at_r ↦
        let here : r ≡ x = ground (arith, at_r) in
        let at_x : t.requests x ≡ q = ap (λ (f : ℕ → Request). f x) e ∙ ground (arith, at_r) in
        subst (λ y. Untold (s.requests y)) here (keeps (subst Untold at_x w))
    | inr off ↦
        let at_x : t.requests x ≡ s.requests x =
          ap (λ (f : ℕ → Request). f x) e ∙ ground (arith, off) in
        subst Untold at_x w
  ]

  enqueue-Tells : (r : ℕ) (s t : Conn W) → enqueue r s ≡ some t → Tells s t
  unfolding enqueue
  enqueue-Tells r s t h x (w, d, e) = ground (arith, h, w, d, e)

  pub push_back-Tells : (r : ℕ) (s t : Conn W) → push_back r s ≡ some t → Tells s t
  unfolding push_back
  push_back-Tells r s t h =
      let q = record (s.requests r) { service = s.service_name } in
      let named = record s { requests = update s.requests r q } in
      Tells-trans s named t (one-Tells s named r q refl λ w. w) (enqueue-Tells r named t h)

  pub push_ping-Tells :
      (p : Protocol) (now fresh : ℕ) (s t : Conn W) → push_ping p now fresh s ≡ some t → Tells s t
  unfolding push_ping new_ping_request
  push_ping-Tells p now fresh s t h =
      let q = new_ping_request p now in
      let pinged = record s { requests = update s.requests fresh q } in
      Tells-trans s pinged t
        (one-Tells s pinged fresh q refl λ (w, d, e). absurd (ground (arith, w)))
        (push_back-Tells fresh pinged t h)

  set_response_failed-Tells :
      (r : ℕ) (e : Error) (s t : Conn W) (f : Option Error)
      → set_response_failed r e s ≡ some (t, f)
      → Tells s t
  unfolding set_response_failed done
  set_response_failed-Tells r e s t f h x (w, d, n) = ground (arith, h, w, d, n)

  complete-Tells :
      (p : Protocol) (type_id : ℕ) (bytes : List ℕ) (r : ℕ) (s t : Conn W) (e : Option Error)
      → complete p type_id bytes r s ≡ some (t, e)
      → Tells s t
  unfolding complete done restore_seq_id
  complete-Tells p type_id bytes r s t e h x (w, d, n) = ground (arith, h, w, d, n)

  answer-Tells :
      (p : Protocol) (now type_id seq_id : ℕ) (bytes : List ℕ) (s t : Conn W) (e : Option Error)
      → answer p now type_id seq_id bytes s ≡ some (t, e)
      → Tells s t
  unfolding answer
  answer-Tells p now type_id seq_id bytes s t e h =
      elim (Bool-cases (type_id == message_type_heart_beat)) [
        | inl ping ↦ same-Tells s t (ground (arith, h, ping))
        | inr other ↦ elim (Option-cases (lookup seq_id s.pending)) [
          | inl missing ↦ same-Tells s t (ground (arith, h, other, missing))
          | inr (r, found) ↦
              complete-Tells p type_id bytes r (record s { pending = erase seq_id s.pending }) t e
                (ground (arith, h, other, found))
        ]
      ]

  drain-Tells : (e : Error) (rs : List ℕ) (s t : Conn W) → drain e rs s ≡ some t → Tells s t
  unfolding drain
  drain-Tells e [] s t h = same-Tells s t (ground (arith, h))
  drain-Tells e (r ∷ rs) s t h = elim (Option-cases (set_response_failed r e s)) [
    | inl panics ↦ absurd (ground (arith, h, panics))
    | inr ((u, f), failed) ↦
        Tells-trans s u t (set_response_failed-Tells r e s u f failed)
          (drain-Tells e rs u t (ground (arith, h, failed)))
  ]

  mark-Tells : (s t : Conn W) → mark_conn_active_false s ≡ some t → Tells s t
  mark-Tells s t h = same-Tells s t (ap (λ (u : Conn W). u.requests) (mark-keeps s t h).0)

  fail_all-Tells :
      (e : Error) (m : List (ℕ × ℕ)) (s t : Conn W) → fail_all e m s ≡ some t → Tells s t
  unfolding fail_all
  fail_all-Tells e [] s t h = same-Tells s t (ground (arith, h))
  fail_all-Tells e ((k, r) ∷ m) s t h =
      elim (Bool-cases ((s.requests r).type_id == message_type_heart_beat)) [
        | inl ping ↦ fail_all-Tells e m s t (rw (ping, fail_all) at h)
        | inr other ↦ elim (Option-cases (done (record (s.requests r) { response_err = some e }))) [
          | inl panics ↦ absurd (ground (arith, h, other, panics))
          | inr (q, d) ↦
              let u = record s { requests = update s.requests r q } in
              Tells-trans s u t (one-Tells s u r q refl λ w. absurd (told e (s.requests r) q d w))
                (fail_all-Tells e m u t (ground (arith, h, other, d)))
        ]
      ]

  handle-Tells :
      (p : Protocol) (now : ℕ) (bytes : List ℕ) (a : ℕ × ℕ × Option Error) (s t : Conn W)
      (e : Option Error)
      → handle p now bytes a s ≡ some (t, e)
      → Tells s t
  unfolding handle
  handle-Tells p now bytes (type_id, seq_id, some err) s t e h = same-Tells s t (ground (arith, h))
  handle-Tells p now bytes (type_id, seq_id, none) s t e h =
      elim (Bool-cases (type_id == message_type_stop)) [
        | inl stopping ↦ elim (Option-cases (mark_conn_active_false s)) [
          | inl panics ↦ absurd (ground (arith, h, stopping, panics))
          | inr (m, marked) ↦
              let last : m ≡ t = ground (arith, h, stopping, marked) in
              subst (Tells s) last (mark-Tells s m marked)
        ]
        | inr other ↦ answer-Tells p now type_id seq_id bytes s t e (ground (arith, h, other))
      ]

  pub set_response-Tells :
      (p : Protocol) (now : ℕ) (bytes : List ℕ) (s t : Conn W) (e : Option Error)
      → set_response p now bytes s ≡ some (t, e)
      → Tells s t
  unfolding set_response
  set_response-Tells p now bytes s t e h =
      handle-Tells p now bytes (decode_thrift_typ_id_seq_id p bytes) s t e h

  pub flush_requests-Tells : (e : Error) (s t : Conn W) → flush_requests e s ≡ some t → Tells s t
  unfolding flush_requests close_input
  flush_requests-Tells e s t h = elim (Option-cases (mark_conn_active_false s)) [
    | inl panics ↦ absurd (ground (arith, h, panics))
    | inr (m, marked) ↦ elim (Option-cases (fail_all e m.pending (record m { pending = [] }))) [
      | inl panics ↦ absurd (ground (arith, h, marked, panics))
      | inr (u, failed) ↦ Tells-trans s m t (mark-Tells s m marked) (
          Tells-trans m u t (fail_all-Tells e m.pending (record m { pending = [] }) u failed)
            (same-Tells u t (ground (arith, h, marked, failed))))
    ]
  ]

  pub run_end-Tells : (e : Option Error) (s t : Conn W) → run_end e s ≡ some t → Tells s t
  unfolding run_end
  run_end-Tells e s t h = elim (Option-cases (mark_conn_active_false s)) [
    | inl panics ↦ absurd (ground (arith, h, panics))
    | inr (m, marked) ↦
        Tells-trans s m t (mark-Tells s m marked) (rest e m t (ground (arith, h, marked)))
  ]
    where
      rest :
          (e : Option Error) (m t : Conn W)
          → elim e as (λ _. Option (Conn W)) [ none ↦ some m | some err ↦ drain err m.input m ]
            ≡ some t
          → Tells m t
      rest none m t h = same-Tells m t (ground (arith, h))
      rest (some err) m t h = drain-Tells err m.input m t h

module _ (k : Sink) (p : Protocol) where
  open k use {W}

  replaced-Untold :
      (seq : ℕ) (q q' : Request) → replace_seq_id p seq q ≡ some q' → Untold q' → Untold q
  unfolding replace_seq_id
  replaced-Untold seq q q' h (w, d, n) =
      (ground (arith, h, w), ground (arith, h, d), ground (arith, h, n))

  pub send_frame-Tells :
      (now later r : ℕ) (s t : Conn W) (e : Option Error)
      → send_frame k p now later r s ≡ some (t, e)
      → Tells s t
  unfolding send_frame
  send_frame-Tells now later r s t e h =
      elim (Option-cases (replace_seq_id p s.current_seq_id (s.requests r))) [
        | inl panics ↦ absurd (ground (arith, h, panics))
        | inr (q, replaced) ↦
            one-Tells s t r q (ground (arith, h, replaced))
              (replaced-Untold s.current_seq_id (s.requests r) q replaced)
      ]

  pub after_flush-Tells :
      (r : ℕ) (s t : Conn W) (e : Option Error) (w : Writer)
      → after_flush r (s, e) ≡ some (t, w)
      → Tells s t
  after_flush-Tells r s t none w h = same-Tells s t (ground (arith, h))
  after_flush-Tells r s t (some e) w h = elim (Option-cases (set_response_failed r e s)) [
    | inl panics ↦ absurd (ground (arith, h, panics))
    | inr ((u, f), failed) ↦
        let last : u ≡ t = ground (arith, h, failed) in
        subst (Tells s) last (set_response_failed-Tells r e s u f failed)
  ]
