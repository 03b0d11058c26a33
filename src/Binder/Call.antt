-- ===== src/Binder/Call.antt =====
-- binderCall and the loops of system/binder/Binder.cpp. The answers of the driver to the ioctl
-- calls to come are an argument: `none` is a failed call, `some` the bytes it put into `readbuf`.
use zeus_os.Base.{
  ℕ, suc, ◌+◌, Bool, true, false, Option, none, some, List, [], ◌∷◌, if◌then◌else◌, length,
}
use zeus_os.Memory.{store}
use zeus_os.Parcel.{BinderIo}
use zeus_os.Binder.Protocol.{transaction, register_looper, enter_looper}
use zeus_os.Binder.Session.{Outcome, done, blocked, ◌>>=◌, Process, send, call_txn}
use zeus_os.Binder.Parse.{Handlers, Parsing, looping, replied, failed, binder_parse}

abbrev pub Answers : Type 0
Answers = List (Option (List ℕ))

-- What binderCall returns: whether it is 0, the reply parcel and the process.
pub record Called (S : Type 0) : Type 0 where
  pub ok : Bool
  pub reply_bio : BinderIo
  pub process : Process S

-- memset(reply.mBio, 0, sizeof(struct BinderIO)); flags |= BIO_F_IOERROR
abbrev pub io_error : BinderIo
io_error = record {
  data_ptr = 0;
  offs = 0;
  data_avail = 0;
  offs_avail = 0;
  data0 = 0;
  offs0 = 0;
  flags = record { shared = false; overflow = false; ioerror = true };
}

module _ {S : Type 0} where
  -- The label `fail`.
  abbrev pub call_failed : Process S → Called S
  call_failed p = record { ok = false; reply_bio = io_error; process = p }

  -- binderParse on the bytes of one answer, which the driver puts at `readbuf`.
  unfoldable pub parse_answer :
      Handlers S → ℕ → List ℕ → Bool → BinderIo → Process S → Outcome (Parsing S)
  parse_answer h readbuf bytes waiting answer p =
      binder_parse (suc (length bytes)) h (readbuf + length bytes) (record {
        ptr = readbuf;
        verdict = looping;
        waiting = waiting;
        answer = answer;
        process = record p { mem = store (p.mem) readbuf bytes };
      })

  unfoldable pub await_reply : Handlers S → ℕ → Answers → BinderIo → Process S → Outcome (Called S)
  await_reply h readbuf [] r p = blocked
  await_reply h readbuf (none ∷ rest) r p = done (call_failed p)
  await_reply h readbuf (some bytes ∷ rest) r p = parse_answer h readbuf bytes true r p >>= λ s.
      elim s.verdict [
        | looping ↦ await_reply h readbuf rest s.answer s.process
        | replied ↦ done (record { ok = true; reply_bio = s.answer; process = s.process })
        | failed ↦ done (call_failed s.process)
      ]

  unfoldable pub binder_call :
      Handlers S → ℕ → Answers → BinderIo → BinderIo → ℕ → ℕ → ℕ → Process S → Outcome (Called S)
  binder_call h readbuf answers msg r target code flags p =
      if msg.flags.overflow
      then done (call_failed p)
      else await_reply h readbuf answers r
          (send (transaction (call_txn target code flags msg) ∷ []) p)

-- A loop that serves has answered all that came and waits for more, or has come to its `break`.
pub data Loop (S : Type 0) : Type 0 where
  serving left : Process S → Loop S

module _ {S : Type 0} where
  unfoldable pub serve : Handlers S → ℕ → Answers → Process S → Outcome (Loop S)
  serve h readbuf [] p = done (serving p)
  serve h readbuf (none ∷ rest) p = done (left p)
  serve h readbuf (some bytes ∷ rest) p = parse_answer h readbuf bytes false io_error p >>= λ s.
      elim s.verdict [
        | looping ↦ serve h readbuf rest s.process
        | replied ↦ done (left s.process)
        | failed ↦ done (left s.process)
      ]

  -- Binder::binderLoop, of the main thread.
  unfoldable pub binder_loop : Handlers S → ℕ → Answers → Process S → Outcome (Loop S)
  binder_loop h readbuf answers p = serve h readbuf answers (send (enter_looper ∷ []) p)

  -- binder_thread_loop, of a thread that BR_SPAWN_LOOPER started.
  unfoldable pub binder_thread_loop : Handlers S → ℕ → Answers → Process S → Outcome (Loop S)
  binder_thread_loop h readbuf answers p = serve h readbuf answers (send (register_looper ∷ []) p)
