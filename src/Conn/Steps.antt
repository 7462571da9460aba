-- ===== src/Conn/Steps.antt =====
-- Each operation of a connection keeps the accounts, and none of them makes a WaitGroup negative.
use rpc_proxy.Prelude.{
  ℕ, zero, suc, ◌+◌, ◌≡◌, refl, sym, ◌∙◌, false, Option, none, some, List, [], ◌∷◌, ◌++◌, arith,
  ◌==◌, lookup, erase, update, Option-cases, Bool-cases, inl, inr, ◌⊎◌, ==_iff,
}
use rpc_proxy.Errors.{Error, invalid_response}
use rpc_proxy.Request.{Request, restore_seq_id}
use rpc_proxy.Thrift.{Protocol, message_type_heart_beat}
use rpc_proxy.Conn.{
  Conn, done, wait_add, mark_failed, set_response_failed, complete, answer, drain, enqueue,
}
use rpc_proxy.Conn.Accounts.{
  Accounts, count, count_values, count-append, erase_present, erase_absent, erase-UniqueKeys,
}

abbrev failing : Request → Error → Request
failing q e = record q {
  response_data = none;
  response_err = some e;
  failed = mark_failed q.failed;
}

module _ {W : Type 0} where
  abbrev pub with_request : Conn W → ℕ → Request → Conn W
  with_request s r q = record s { requests = update s.requests r q }

  -- The wait of a request that is at hand ends: Done does not panic.
  pub release :
      (hand : List ℕ) (r : ℕ) (s : Conn W) (q : Request)
      → Accounts (r ∷ hand) s
      → q.wait ≡ (s.requests r).wait
      → (q' : Request) × (done q ≡ some q') × Accounts hand (with_request s r q')
  unfolding done
  release hand r s q a same = elim (Option-cases q.wait) [
    | inl nobody ↦
        (q, ground arith, record { keys = a.keys; waits = λ x n h. ground (arith, a.waits x n) })
    | inr (zero, w) ↦ absurd (ground (arith, a.waits r 0 (sym same ∙ w)))
    | inr (suc m, w) ↦ (
      record q { wait = some m },
      ground arith,
      record { keys = a.keys; waits = λ x n h. ground (arith, a.waits x n, a.waits r (suc m)) },
    )
  ]

  -- A request queued on a channel that is open: where each WaitGroup counts the places of its
  -- request, the send does not panic, and the WaitGroups count the places again.
  pub enqueue-Accounts :
      (hand : List ℕ) (r : ℕ) (s : Conn W)
      → Accounts hand s
      → s.input_closed ≡ false
      → (t : Conn W) × (enqueue r s ≡ some t) × Accounts hand t
  unfolding enqueue
  enqueue-Accounts hand r s a opened =
      let w = wait_add (s.requests r).wait in
      (
        record (with_request s r (record (s.requests r) { wait = w })) {
          input = s.input ++ r ∷ [];
        },
        ground arith,
        record { keys = a.keys; waits = λ x n h. queued x n h (Option-cases (s.requests r).wait) },
      )
    where
      queued :
          (x n : ℕ)
          → (update s.requests r
              (record (s.requests r) { wait = wait_add (s.requests r).wait })
              x).wait
            ≡ some n
          → ((s.requests r).wait ≡ none) ⊎ ((m : ℕ) × ((s.requests r).wait ≡ some m))
          → n ≡ count x hand + count x (s.input ++ r ∷ []) + count_values x s.pending
      queued x n h (inl e) = ground (arith, count-append x r s.input, a.waits x n)
      queued x n h (inr (m, e)) = ground (arith, count-append x r s.input, a.waits x n, a.waits r m)

  failed_step :
      (r : ℕ) (e : Error) (s : Conn W) (q : Request)
      → done (failing (s.requests r) e) ≡ some q
      → set_response_failed r e s ≡ some (with_request s r q, some e)
  unfolding set_response_failed
  failed_step r e s q d = rw d

  -- A request at hand that fails: its wait ends.
  pub set_response_failed-Accounts :
      (hand : List ℕ) (r : ℕ) (e : Error) (s : Conn W)
      → Accounts (r ∷ hand) s
      → (t : Conn W) × (set_response_failed r e s ≡ some (t, some e))
        × Accounts hand t
        × (t.input ≡ s.input)
  unfolding set_response_failed
  set_response_failed-Accounts hand r e s a =
      let (q, d, b) = release hand r s (failing (s.requests r) e) a refl in
      (with_request s r q, rw d, b, refl)

  -- drain empties the queue and ends every wait in it.
  pub drain-Accounts :
      (e : Error) (rs : List ℕ) (s : Conn W)
      → Accounts rs (record s { input = [] })
      → (t : Conn W) × (drain e rs s ≡ some t)
        × Accounts [] t
        × (t.input ≡ [])
        × (t.pending ≡ s.pending)
  unfolding drain
  drain-Accounts e [] s a = (record s { input = [] }, refl, a, refl, refl)
  drain-Accounts e (r ∷ rs) s a =
      let (q, d, b) = release rs r (record s { input = [] }) (failing (s.requests r) e) a refl in
      let (t, rest, c, z, y) = drain-Accounts e rs (with_request s r q) b in
      (t, rw (failed_step r e s q d, drain) rest, c, z, y)

  -- An answer that is filled in for a request at hand: its wait ends.
  complete-Accounts :
      (p : Protocol) (type_id : ℕ) (bytes : List ℕ) (hand : List ℕ) (r : ℕ) (s : Conn W)
      → Accounts (r ∷ hand) s
      → (t : Conn W) × (complete p type_id bytes r s ≡ some (t, none)) × Accounts hand t
  unfolding complete restore_seq_id
  complete-Accounts p type_id bytes hand r s a =
      let q = record (s.requests r) {
        response_type_id = type_id;
        response_data = some bytes;
        response_err = none;
      } in
      let (q', d, b) = release hand r s (restore_seq_id p q) a refl in
      (with_request s r q', rw d, b)

  -- Looking up an entry and deleting it takes its request in hand.
  take-Accounts :
      (hand : List ℕ) (seq r : ℕ) (s : Conn W)
      → Accounts hand s
      → lookup seq s.pending ≡ some r
      → Accounts (r ∷ hand) (record s { pending = erase seq s.pending })
  take-Accounts hand seq r s a found = record {
    keys = erase-UniqueKeys seq s.pending a.keys;
    waits = λ x n h. ground (arith, a.waits x n h, erase_present seq r x s.pending a.keys found);
  }

  -- The answer to a heartbeat is to a request for which nobody waits.
  abbrev pub PingsUnawaited : Conn W → ℕ → ℕ → Type 0
  PingsUnawaited s type_id seq_id =
      type_id ≡ message_type_heart_beat
      → (r : ℕ) → lookup seq_id s.pending ≡ some r
      → (s.requests r).wait ≡ none

  drop-Accounts :
      (hand : List ℕ) (seq r : ℕ) (s : Conn W)
      → Accounts hand s
      → lookup seq s.pending ≡ some r
      → (s.requests r).wait ≡ none
      → Accounts hand (record s { pending = erase seq s.pending })
  drop-Accounts hand seq r s a found nobody = record {
    keys = erase-UniqueKeys seq s.pending a.keys;
    waits = λ x n h. ground (arith, a.waits x n h, erase_present seq r x s.pending a.keys found);
  }

  absent-Accounts :
      (hand : List ℕ) (seq : ℕ) (s : Conn W)
      → Accounts hand s
      → lookup seq s.pending ≡ none
      → Accounts hand (record s { pending = erase seq s.pending })
  absent-Accounts hand seq s a missing = record {
    keys = erase-UniqueKeys seq s.pending a.keys;
    waits = λ x n h. ground (arith, a.waits x n h, erase_absent seq x s.pending missing);
  }

  -- After the answer to a heartbeat.
  abbrev alive : ℕ → ℕ → Conn W → Conn W
  alive seq now s = record s { pending = erase seq s.pending; hb_last_time = now }

  alive-Accounts :
      (hand : List ℕ) (seq now : ℕ) (s : Conn W)
      → Accounts hand (record s { pending = erase seq s.pending })
      → Accounts hand (alive seq now s)
  alive-Accounts hand seq now s a = record { keys = a.keys; waits = a.waits }

  -- An answer under any number and of any type: where each WaitGroup counts the places of its
  -- request (at hand, in the queue, in the table), and nobody waits for the request to which a heartbeat's answer
  -- belongs, it does not panic, and the WaitGroups count the places again.
  pub answer-Accounts :
      (p : Protocol) (hand : List ℕ) (now type_id seq_id : ℕ) (bytes : List ℕ) (s : Conn W)
      → Accounts hand s
      → PingsUnawaited s type_id seq_id
      → (t : Conn W) × (e : Option Error) × (answer p now type_id seq_id bytes s ≡ some (t, e))
        × Accounts hand t
  unfolding answer
  answer-Accounts p hand now type_id seq_id bytes s a pings =
      elim (Option-cases (lookup seq_id s.pending)) [
        | inl missing ↦ elim (Bool-cases (type_id == message_type_heart_beat)) [
          | inl hb ↦ (
            alive seq_id now s,
            none,
            rw hb refl,
            alive-Accounts hand seq_id now s (absent-Accounts hand seq_id s a missing),
          )
          | inr other ↦ (
            record s { pending = erase seq_id s.pending },
            some invalid_response,
            rw (other, missing) refl,
            absent-Accounts hand seq_id s a missing,
          )
        ]
        | inr (r, found) ↦ elim (Bool-cases (type_id == message_type_heart_beat)) [
          | inl hb ↦ (
            alive seq_id now s,
            none,
            rw hb refl,
            alive-Accounts hand seq_id now s
                (drop-Accounts hand seq_id r s a found (pings ((==_iff _ _).0 hb) r found)),
          )
          | inr other ↦
              let (t, done, b) =
                complete-Accounts p type_id bytes hand r
                  (record s { pending = erase seq_id s.pending })
                  (take-Accounts hand seq_id r s a found) in
              (t, none, rw (other, found) done, b)
        ]
      ]
