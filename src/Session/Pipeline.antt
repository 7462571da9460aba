-- ===== src/Session/Pipeline.antt =====
-- Session.Serve of proxy/session_proxy.go: loopReader and loopWriter, interleaved. Requests are numbered
-- as they come in; the connections fill in answers at any time.
pub mod Order
mod Examples
use rpc_proxy.Prelude.{
  ℕ, suc, ◌<◌, ◌≡◌, Bool, true, false, Option, none, some, List, [], ◌∷◌, ◌++◌, length, update,
}
use rpc_proxy.Errors.{Error, Result, ok, err}
use rpc_proxy.Framing.{Transport, read_frame}
use rpc_proxy.Framing.Output.{Sink}
use rpc_proxy.Thrift.{Protocol}
use rpc_proxy.Request.{Request}
use rpc_proxy.Exceptions.{Exceptions}
use rpc_proxy.Session.{Session, Dispatcher, handle_request, handle_response, write_back}

pub record Pipeline (W D : Type 0) : Type 0 where
  pub session : Session W
  pub dispatcher : D
  -- the requests by number, and the next number
  pub requests : ℕ → Request
  pub next : ℕ
  -- loopReader runs
  pub reading : Bool
  pub tasks : List ℕ
  pub tasks_closed : Bool
  -- loopWriter runs; afterwards the tasks are thrown away
  pub writing : Bool
  pub written : List ℕ
  pub dropped : List ℕ

module _ {W : Type 0} where
  -- After ReadFrame
  abbrev pub received : Session W → Session W
  received s = record s { transport = (read_frame s.transport).1 }

module _ (p : Protocol) (x : Exceptions) (k : Sink) {D : Type 0} (dispatch : Dispatcher D)
    (max_pipeline : ℕ) where
  open k use {W}

  -- A step of one of the goroutines.
  pub data Step (s : Pipeline W D) : Pipeline W D → Type 0 where
    read :
        {bytes : List ℕ} {t : Session W} {d : D} {r : Request} (unix : ℕ)
        → s.reading ≡ true
        → (read_frame s.session.transport).0 ≡ ok bytes
        → handle_request p dispatch unix bytes (received s.session) s.dispatcher ≡ (t, (d, r, none))
        → length s.tasks < max_pipeline
        → s.tasks_closed ≡ false
        → Step s (record s {
          session = t;
          dispatcher = d;
          requests = update s.requests s.next r;
          next = suc s.next;
          tasks = s.tasks ++ s.next ∷ [];
        })
    refuse :
        {bytes : List ℕ} {t : Session W} {d : D} {r : Request} {e : Error} (unix : ℕ)
        → s.reading ≡ true
        → (read_frame s.session.transport).0 ≡ ok bytes
        → handle_request p dispatch unix bytes (received s.session) s.dispatcher
          ≡ (t, (d, r, some e))
        → Step s (record s { session = t; dispatcher = d; reading = false })
    break :
        {e : Error}
        → s.reading ≡ true
        → (read_frame s.session.transport).0 ≡ err e
        → Step s (record s { session = received s.session; reading = false })
    close_tasks :
        s.reading ≡ false → s.tasks_closed ≡ false → Step s (record s { tasks_closed = true })
    -- a connection answers
    answer : (requests : ℕ → Request) → Step s (record s { requests = requests })
    write :
        {t : Session W} {q : Request} (part : List ℕ) (now later i : ℕ) (rest : List ℕ)
        → s.writing ≡ true
        → s.tasks ≡ i ∷ rest
        → handle_response p x part (s.requests i) ≡ some q
        → write_back k now later q s.session ≡ (t, none)
        → Step s (record s {
          session = t;
          requests = update s.requests i q;
          tasks = rest;
          written = s.written ++ i ∷ [];
        })
    fail :
        {t : Session W} {q : Request} {e : Error} (part : List ℕ) (now later i : ℕ) (rest : List ℕ)
        → s.writing ≡ true
        → s.tasks ≡ i ∷ rest
        → handle_response p x part (s.requests i) ≡ some q
        → write_back k now later q s.session ≡ (t, some e)
        → Step s (record s {
          session = t;
          requests = update s.requests i q;
          tasks = rest;
          writing = false;
          dropped = s.dropped ++ i ∷ [];
        })
    throw :
        (i : ℕ) (rest : List ℕ)
        → s.writing ≡ false
        → s.tasks ≡ i ∷ rest
        → Step s (record s { tasks = rest; dropped = s.dropped ++ i ∷ [] })

  pub data Reach (s : Pipeline W D) : Pipeline W D → Type 0 where
    here : Reach s s
    next : {t u : Pipeline W D} → Reach s t → Step t u → Reach s u
