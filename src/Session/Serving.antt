-- ===== src/Session/Serving.antt =====
-- NonBlockSession.Serve of proxy/session_nonblock.go: the reader, a goroutine for each frame, and
-- loopWriter, interleaved. Requests are numbered as their frames come in; the connections fill in
-- answers at any time.
pub mod Once
mod Examples
use rpc_proxy.Prelude.{
  ℕ, suc, ◌+◌, ◌-◌, ◌<◌, ◌≡◌, Bool, true, false, Option, none, some, List, [], ◌∷◌, ◌++◌, length,
  update,
}
use rpc_proxy.Errors.{Error, Result, ok, err}
use rpc_proxy.Framing.{read_frame}
use rpc_proxy.Framing.Output.{Sink}
use rpc_proxy.Thrift.{Protocol}
use rpc_proxy.Request.{Request}
use rpc_proxy.Exceptions.{Exceptions}
use rpc_proxy.Session.{Session, Dispatcher, handle_request_nonblock, handle_response, write_back}

pub record Serving (W D : Type 0) : Type 0 where
  pub session : Session W
  pub dispatcher : D
  -- the frames and the requests by number, and the next number
  pub frames : ℕ → List ℕ
  pub requests : ℕ → Request
  pub next : ℕ
  -- the loop of Serve runs
  pub reading : Bool
  -- the goroutines: before handleRequest, before `tasks <- r`, and before wait.Done()
  pub started : List ℕ
  pub handled : List ℕ
  pub leaving : ℕ
  pub wait : ℕ
  pub tasks : List ℕ
  pub tasks_closed : Bool
  -- loopWriter runs; afterwards the tasks are thrown away
  pub writing : Bool
  pub written : List ℕ
  pub dropped : List ℕ

module _ (p : Protocol) (x : Exceptions) (k : Sink) {D : Type 0} (dispatch : Dispatcher D)
    (max_pipeline : ℕ) where
  open k use {W}

  -- A step of one of the goroutines. A send on the closed channel would panic: `hand_over` takes it
  -- for granted that the channel is open.
  pub data Step (s : Serving W D) : Serving W D → Type 0 where
    read :
        {bytes : List ℕ}
        → s.reading ≡ true
        → (read_frame s.session.transport).0 ≡ ok bytes
        → Step s (record s {
          session = record s.session { transport = (read_frame s.session.transport).1 };
          frames = update s.frames s.next bytes;
          next = suc s.next;
          started = s.started ++ s.next ∷ [];
          wait = suc s.wait;
        })
    break :
        {e : Error}
        → s.reading ≡ true
        → (read_frame s.session.transport).0 ≡ err e
        → Step s (record s {
          session = record s.session { transport = (read_frame s.session.transport).1 };
          reading = false;
        })
    handle :
        {t : Session W} {d : D} {r : Request} {e : Option Error} (unix i : ℕ)
        (before after : List ℕ)
        → s.started ≡ before ++ i ∷ after
        → handle_request_nonblock p dispatch unix (s.frames i) s.session s.dispatcher
          ≡ (t, (d, r, e))
        → Step s (record s {
          session = t;
          dispatcher = d;
          requests = update s.requests i r;
          started = before ++ after;
          handled = i ∷ s.handled;
        })
    hand_over :
        (i : ℕ) (before after : List ℕ)
        → s.handled ≡ before ++ i ∷ after
        → length s.tasks < max_pipeline
        → s.tasks_closed ≡ false
        → Step s (record s {
          handled = before ++ after;
          tasks = s.tasks ++ i ∷ [];
          leaving = suc s.leaving;
        })
    done : {n : ℕ} → s.leaving ≡ suc n → Step s (record s { leaving = n; wait = s.wait - 1 })
    close_tasks :
        s.reading ≡ false
        → s.wait ≡ 0
        → s.tasks_closed ≡ false
        → Step s (record s { tasks_closed = true })
    -- a connection answers
    answer : (requests : ℕ → Request) → Step s (record s { requests = requests })
    write :
        {t : Session W} {q : Request} (part : List ℕ) (now later i : ℕ) (rest : List ℕ)
        → s.writing ≡ true
        → s.tasks ≡ i ∷ rest
        → handle_response p x part (s.requests i) ≡ some q
        → write_back k now later q s.session ≡ (t, none)
        → Step s (record s {
          session = t;
          requests = update s.requests i q;
          tasks = rest;
          written = s.written ++ i ∷ [];
        })
    fail :
        {t : Session W} {q : Request} {e : Error} (part : List ℕ) (now later i : ℕ) (rest : List ℕ)
        → s.writing ≡ true
        → s.tasks ≡ i ∷ rest
        → handle_response p x part (s.requests i) ≡ some q
        → write_back k now later q s.session ≡ (t, some e)
        → Step s (record s {
          session = t;
          requests = update s.requests i q;
          tasks = rest;
          writing = false;
          dropped = i ∷ s.dropped;
        })
    throw :
        (i : ℕ) (rest : List ℕ)
        → s.writing ≡ false
        → s.tasks ≡ i ∷ rest
        → Step s (record s { tasks = rest; dropped = i ∷ s.dropped })

  pub data Reach (s : Serving W D) : Serving W D → Type 0 where
    here : Reach s s
    next : {t u : Serving W D} → Reach s t → Step t u → Reach s u
