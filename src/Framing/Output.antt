-- ===== src/Framing/Output.antt =====
-- The writing half of a connection: bufio.Writer over thrift's transport, an argument of the model.
-- `write` answers with the number of bytes that it took and an error, `flush` with an error.
-- The laws are bufio's documentation: what a call without an error accepted is kept in order, a write
-- may send some of it but takes nothing back, and a flush without an error leaves nothing behind.
use mathlib.Core.List.{append_assoc, append-nil}
use rpc_proxy.Prelude.{ℕ, Option, none, List, [], ◌++◌, ◌≡◌, refl, sym, length}
use rpc_proxy.Errors.{Error}

pub record Sink : Type 1 where
  pub W : Type 0
  pub write : W → List ℕ → W × ℕ × Option Error
  pub flush : W → W × Option Error
  -- all bytes handed over, and those of them that have left for the peer
  pub accepted : W → List ℕ
  pub sent : W → List ℕ
  pub write_accepts :
      (w : W) (bs : List ℕ) → (write w bs).2 ≡ none → accepted (write w bs).0 ≡ accepted w ++ bs
  -- What has been sent stays sent.
  pub write_sends :
      (w : W) (bs : List ℕ)
      → (write w bs).2 ≡ none
      → (more : List ℕ) × (sent (write w bs).0 ≡ sent w ++ more)
  pub flush_accepts : (w : W) → (flush w).1 ≡ none → accepted (flush w).0 ≡ accepted w
  pub flush_sends : (w : W) → (flush w).1 ≡ none → sent (flush w).0 ≡ accepted w

-- A writer whose connection never fails: what it holds back, behind what it has sent.
pub record Memory : Type 0 where
  pub held : List ℕ
  pub gone : List ℕ

abbrev pub memory : Sink
memory = record {
  W = Memory;
  write = λ w bs. (record w { held = w.held ++ bs }, length bs, none);
  flush = λ w. (record { held = []; gone = w.gone ++ w.held }, none);
  accepted = λ w. w.gone ++ w.held;
  sent = λ w. w.gone;
  write_accepts = λ w bs e. sym (append_assoc w.gone w.held bs);
  write_sends = λ w bs e. ([], sym (append-nil w.gone));
  flush_accepts = λ w e. append-nil (w.gone ++ w.held);
  flush_sends = λ w e. refl;
}
