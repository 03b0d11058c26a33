-- ===== src/Exchange/Calls.antt =====
-- binderCall, binderDone and the loops of system/binder/Binder.cpp, whatever the driver answers.
use zeus_os.Base.{
  ℕ, ◌+◌, ◌≡◌, refl, sym, inl, inr, true, false, Bool-cases, [], ◌∷◌, none, some, length,
  if◌then◌else◌,
}
use mathlib.Core.List.{append-nil}
use zeus_os.Parcel.{BinderIo}
use zeus_os.Binder.{
  Outcome, done, fault, blocked, ◌>>=◌, Process, UnlessFault, Handlers, Parsing, Verdict, looping,
  replied, failed, parse_answer, Called, Answers, call_failed, await_reply, binder_call,
  binder_done, io_error, send, free_buffer,
}
use zeus_os.Exchange.Returns.{IfDone}
use zeus_os.Exchange.Ends.{AreFinite, IsSettled, parse_answer-IsSettled}

bind-IfDone {ℓ κ} :
    {A : Type ℓ} {B : Type κ} (o : Outcome A) (f : A → Outcome B) (Q : A → Type 0) (R : B → Type 0)
    → UnlessFault o Q
    → ((a : A) → Q a → IfDone (f a) R)
    → IfDone (o >>= f) R
bind-IfDone (done a) f Q R h k = k a h
bind-IfDone fault f Q R h k = tt
bind-IfDone blocked f Q R h k = tt

module _ {S : Type 0} where
  abbrev twice_done : BinderIo → Process S → BinderIo × Process S
  twice_done r p = binder_done (binder_done r p).0 (binder_done r p).1

  -- binderDone gives back what the call has got, and no more: a reply that came is freed once, at
  -- its address, also when binderDone is called again, and after a failure there is none.
  abbrev pub IsReleasable : Called S → Type 0
  IsReleasable c =
      ((binder_done c.reply_bio c.process).1
        ≡ send (if c.ok then free_buffer c.reply_bio.data0 ∷ [] else []) c.process)
      × (twice_done c.reply_bio c.process ≡ binder_done c.reply_bio c.process)
      × (c.ok ≡ false → c.reply_bio ≡ io_error)

  send_nothing : (p : Process S) → p ≡ send [] p
  send_nothing p = λ i. record p { sent = sym (append-nil p.sent) i }

  call_failed-IsReleasable : (p : Process S) → IsReleasable (call_failed p)
  unfolding binder_done
  call_failed-IsReleasable p = (send_nothing p, refl, λ e. refl)

  replied-IsReleasable :
      (r : BinderIo) (p : Process S)
      → r.flags.shared ≡ true
      → IsReleasable (record { ok = true; reply_bio = r; process = p })
  unfolding binder_done
  replied-IsReleasable r p e = rw e (refl, refl, λ f. cc)

  module _ (h : Handlers S) (fin : AreFinite h) (readbuf : ℕ) where
    after_answer :
        (rest : Answers) (s : Parsing S)
        → IsSettled s
        → ((r : BinderIo) (p : Process S) → IfDone (await_reply h readbuf rest r p) IsReleasable)
        → (v : Verdict) → s.verdict ≡ v
        → IfDone
            (elim v [
              | looping ↦ await_reply h readbuf rest s.answer s.process
              | replied ↦ done (record { ok = true; reply_bio = s.answer; process = s.process })
              | failed ↦ done (call_failed s.process)
            ])
            IsReleasable
    after_answer rest s i ih looping e = ih s.answer s.process
    after_answer rest s i ih replied e = replied-IsReleasable s.answer s.process (i.1 (i.0 e))
    after_answer rest s i ih failed e = call_failed-IsReleasable s.process

    await_reply-IsReleasable :
        (answers : Answers) (r : BinderIo) (p : Process S)
        → IfDone (await_reply h readbuf answers r p) IsReleasable
    unfolding await_reply
    await_reply-IsReleasable [] r p = tt
    await_reply-IsReleasable (none ∷ rest) r p = call_failed-IsReleasable p
    await_reply-IsReleasable (some bytes ∷ rest) r p =
        bind-IfDone (parse_answer h readbuf bytes true r p) _ IsSettled IsReleasable
          (parse_answer-IsSettled h fin (readbuf + length bytes) readbuf bytes r p refl)
          (λ s i. after_answer rest s i (await_reply-IsReleasable rest) s.verdict refl)

    -- Whatever the driver answers, the parcel that binderCall leaves can be handed to binderDone.
    -- After a reply that is one BC_FREE_BUFFER with the address of the reply, and a second
    -- binderDone is no more. After a failed call the parcel is the one with the error flag, and
    -- nothing is sent. The handlers of the process come to an end.
    pub binder_call-IsReleasable :
        (answers : Answers) (msg r : BinderIo) (target code flags : ℕ) (p : Process S)
        → IfDone (binder_call h readbuf answers msg r target code flags p) IsReleasable
    unfolding binder_call
    binder_call-IsReleasable answers msg r target code flags p =
        elim (Bool-cases msg.flags.overflow) [
          | inl y ↦ rw (binder_call, y) (call_failed-IsReleasable p)
          | inr n ↦ rw (binder_call, n) (await_reply-IsReleasable answers r _)
        ]
