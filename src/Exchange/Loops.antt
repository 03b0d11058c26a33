-- ===== src/Exchange/Loops.antt =====
-- The loops that serve, Binder::binderLoop and binder_thread_loop of system/binder/Binder.cpp.
use zeus_os.Base.{ℕ, ◌+◌, refl, false, none, some, [], ◌∷◌, length}
use zeus_os.Binder.{
  done, Process, UnlessFault, UnlessFault-bind, Handlers, Parsing, Verdict, looping, replied,
  failed, parse_answer, io_error, Answers, left, serve, binder_loop, binder_thread_loop, send,
  enter_looper, register_looper,
}
use zeus_os.Exchange.Ends.{AreFinite, parse_answer_ends}

module _ {S : Type 0} (h : Handlers S) (fin : AreFinite h) (readbuf : ℕ) where
  after_round :
      (rest : Answers) (s : Parsing S)
      → ((p : Process S) → UnlessFault (serve h readbuf rest p) (λ l. Unit))
      → (v : Verdict)
      → UnlessFault
          (elim v [
            | looping ↦ serve h readbuf rest s.process
            | replied ↦ done (left s.process)
            | failed ↦ done (left s.process)
          ])
          (λ l. Unit)
  after_round rest s ih looping = ih s.process
  after_round rest s ih replied = tt
  after_round rest s ih failed = tt

  serve_ends :
      (answers : Answers) (p : Process S) → UnlessFault (serve h readbuf answers p) (λ l. Unit)
  unfolding serve
  serve_ends [] p = tt
  serve_ends (none ∷ rest) p = tt
  serve_ends (some bytes ∷ rest) p =
      UnlessFault-bind (parse_answer h readbuf bytes false io_error p) _ (λ s. Unit) (λ l. Unit)
        (parse_answer_ends h fin (readbuf + length bytes) readbuf bytes false io_error p refl)
        (λ s u. after_round rest s (serve_ends rest) s.verdict)

  -- Whatever bytes the driver answers, both loops get through them: each run comes to the `break`
  -- or to the next call of ioctl, or its behaviour is undefined; none stays in binderParse. The
  -- handlers of the process come to an end.
  pub binder_loop_ends :
      (answers : Answers) (p : Process S)
      → UnlessFault (binder_loop h readbuf answers p) (λ l. Unit)
        × UnlessFault (binder_thread_loop h readbuf answers p) (λ l. Unit)
  unfolding binder_loop binder_thread_loop
  binder_loop_ends answers p = (
    serve_ends answers (send (enter_looper ∷ []) p),
    serve_ends answers (send (register_looper ∷ []) p),
  )
