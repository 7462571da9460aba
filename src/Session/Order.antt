-- ===== src/Session/Order.antt =====
-- What loopReader makes of the frames on a client's connection.
use mathlib.Core.List.{append_assoc}
use rpc_proxy.Prelude.{
  ℕ, suc, ◌+◌, ◌<◌, ◌≡◌, refl, Option, none, List, [], ◌∷◌, ◌++◌, length, arith, true, ◌∙◌, subst,
  sym, ap,
}
use rpc_proxy.Errors.{Error, ok}
use rpc_proxy.Framing.{Transport, read_frame}
use rpc_proxy.Framing.RoundTrip.{frame, frames, with_input, AllWithin, read_frame-frame}
use rpc_proxy.Thrift.{Protocol}
use rpc_proxy.Request.{Request, new_request}
use rpc_proxy.Session.{Session, Dispatcher, handle_request, loop_reader, handed}

abbrev pub incoming : {W : Type 0} → Session W → List ℕ → Error → Session W
incoming s bytes e = record s { transport = with_input s.transport bytes e }

module _ (p : Protocol) {D : Type 0} (dispatch : Dispatcher D) where
  -- The requests of some frames, each as the dispatcher leaves it, and the dispatcher's state.
  abbrev pub dispatched : List (List ℕ) → D → List Request × D
  dispatched [] d = ([], d)
  dispatched (bs ∷ bss) d =
      let (d', r, _) = dispatch (new_request p bs true) d in
      let (rs, d'') = dispatched bss d' in (r ∷ rs, d'')

module _ (p : Protocol) {W D : Type 0} (dispatch : Dispatcher D) where
  -- A round of loopReader with a frame that the dispatcher takes.
  loop_reader_round :
      (n unix : ℕ) (s : Session W) (d : D) (bs : List ℕ) (t : Transport W)
      → read_frame s.transport ≡ (ok bs, t)
      → (dispatch (new_request p bs true) d).2 ≡ none
      → loop_reader p dispatch (suc n) unix s d
        ≡ handed p dispatch (dispatch (new_request p bs true) d).1 (
            loop_reader p dispatch n unix
              (record s { transport = t; ops = s.ops + 1; last_op_unix = unix })
              (dispatch (new_request p bs true) d).0)
  unfolding loop_reader handle_request
  loop_reader_round n unix s d bs t read fine = ground (arith, read, fine)

  -- The tasks are the requests of the frames in their order, each counted once, no error came up, and
  -- the connection stands behind the frames.
  abbrev pub InOrder :
      Session W
      → D
      → List (List ℕ)
      → List ℕ
      → Error
      → List Request × Option Error × Session W × D
      → Type 0
  InOrder s d bss rest e (tasks, last, t, d') =
      (tasks ≡ (dispatched p dispatch bss d).0)
      × (last ≡ none)
      × (t.transport ≡ with_input s.transport rest e)
      × (t.ops ≡ s.ops + length bss)
      × (d' ≡ (dispatched p dispatch bss d).1)

  -- With a dispatcher that returns no error, loopReader puts the requests of the frames into the
  -- channel in the order of the frames, counts each of them, and takes no byte of what follows.
  pub loop_reader-frames :
      (unix : ℕ) (s : Session W) (d : D) (bss : List (List ℕ)) (rest : List ℕ) (e : Error)
      → ((r : Request) (d : D) → (dispatch r d).2 ≡ none)
      → s.transport.frame_size ≡ 0
      → s.transport.max_length < 4_294_967_296
      → AllWithin s.transport.max_length bss
      → InOrder s d bss rest e
          (loop_reader p dispatch (length bss) unix (incoming s (frames bss ++ rest) e) d)
  unfolding loop_reader handle_request frames
  loop_reader-frames unix s d [] rest e quiet ready fits small =
      (refl, refl, refl, omega arith, refl)
  loop_reader-frames unix s d (bs ∷ bss) rest e quiet ready fits small =
      let d' = (dispatch (new_request p bs true) d).0 in
      let r = (dispatch (new_request p bs true) d).1 in
      let s' = record s { ops = s.ops + 1; last_op_unix = unix } in
      let later =
        loop_reader p dispatch (length bss) unix (incoming s' (frames bss ++ rest) e) d' in
      let here = incoming s (frames (bs ∷ bss) ++ rest) e in
      let (a, b, c, n, g) = loop_reader-frames unix s' d' bss rest e quiet ready fits small.1 in
      let read : read_frame here.transport
          ≡ (ok bs, with_input s.transport (frames bss ++ rest) e) =
        ap (λ bytes. read_frame (with_input s.transport bytes e))
          (append_assoc (frame bs) (frames bss) rest)
        ∙ read_frame-frame s.transport bs (frames bss ++ rest) e ready small.0 fits in
      let step : loop_reader p dispatch (suc (length bss)) unix here d ≡ handed p dispatch r later =
        loop_reader_round (length bss) unix here d bs
          (with_input s.transport (frames bss ++ rest) e) read (quiet (new_request p bs true) d) in
      subst (InOrder s d (bs ∷ bss) rest e) (sym step)
        (ap (λ rs. r ∷ rs) a, b, c, omega (arith, n), g)
