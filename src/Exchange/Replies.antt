-- ===== src/Exchange/Replies.antt =====
-- binderCall of system/binder/Binder.cpp when the driver delivers a reply.
use zeus_os.Base.{
  ℕ, ◌+◌, ◌≤◌, ◌≡◌, refl, sym, ap, ◌∙◌, Bool, true, false, List, [], ◌∷◌, ◌++◌, some, map, All,
  arith, length, if◌then◌else◌,
}
use mathlib.Core.List.{append-nil}
use zeus_os.Memory.{store}
use zeus_os.Parcel.{BinderIo, Txn, bio_init_from_txn}
use zeus_os.Binder.{
  Outcome, done, fault, blocked, ◌>>=◌, Process, Returns, Handlers, Parsing, replied, parse_answer,
  Called, Answers, transact, await_reply, binder_call, transaction, send, call_txn,
}
use zeus_os.Exchange.Returns.{
  Return, noop, complete, increfs, acquire_ref, release_ref, decrefs, reply, return_size,
  total_size, follow_one, follow, Spares, dead_binder, spawn_looper, failed_reply, dead_reply,
  SameBytes, IfDone,
}
use zeus_os.Exchange.Answers.{answer_bytes, AreWords, begin, parse_answer-follow}

-- The messages that change nothing in the process.
pub data IsQuiet : Return → Type 0 where
  noop_quiet : IsQuiet noop
  complete_quiet : IsQuiet complete
  increfs_quiet : (p c : ℕ) → IsQuiet (increfs p c)
  acquire_quiet : (p c : ℕ) → IsQuiet (acquire_ref p c)
  release_quiet : (p c : ℕ) → IsQuiet (release_ref p c)
  decrefs_quiet : (p c : ℕ) → IsQuiet (decrefs p c)

abbrev AreQuiet : List Return → Type 0
AreQuiet rs = All IsQuiet rs

module _ {S : Type 0} (h : Handlers S) where
  follow_one-quiet :
      (r : Return) (s : Parsing S)
      → IsQuiet r
      → follow_one h r s ≡ done (record s { ptr = s.ptr + return_size r })
  follow_one-quiet noop s q = refl
  follow_one-quiet complete s q = refl
  follow_one-quiet (increfs p c) s q = refl
  follow_one-quiet (acquire_ref p c) s q = refl
  follow_one-quiet (release_ref p c) s q = refl
  follow_one-quiet (decrefs p c) s q = refl
  follow_one-quiet spawn_looper s q = elim q [ ]
  follow_one-quiet failed_reply s q = elim q [ ]
  follow_one-quiet dead_reply s q = elim q [ ]
  follow_one-quiet (Return.transaction t) s q = elim q [ ]
  follow_one-quiet (reply t) s q = elim q [ ]
  follow_one-quiet (dead_binder d) s q = elim q [ ]

  -- Quiet messages only move the pointer.
  follow-quiet :
      (rs rest : List Return) (s : Parsing S)
      → AreQuiet rs
      → follow h (rs ++ rest) s ≡ follow h rest (record s { ptr = s.ptr + total_size rs })
  unfolding follow
  follow-quiet [] rest s q = ap (λ n. follow h rest (record s { ptr = n })) (omega arith)
  follow-quiet (r ∷ rs) rest s q =
      ap (λ o. o >>= λ s'. follow h (rs ++ rest) s') (follow_one-quiet r s q.0)
      ∙ follow-quiet rs rest (record s { ptr = s.ptr + return_size r }) q.1
      ∙ ap (λ n. follow h rest (record s { ptr = n })) (omega arith)

  -- The driver wrote whole messages that fit the 128 bytes of `readbuf`.
  abbrev pub IsAnswer : List Return → Type 0
  IsAnswer rs = AreWords rs × (length (answer_bytes rs) ≤ 128)

  follow-all_quiet :
      (rs : List Return) (s : Parsing S)
      → AreQuiet rs
      → follow h rs s ≡ done (record s { ptr = s.ptr + total_size rs })
  unfolding follow
  follow-all_quiet rs s q = ap (λ xs. follow h xs s) (sym (append-nil rs)) ∙ follow-quiet rs [] s q

  IfDone-SameBytes :
      (lo hi hi' : ℕ) (p : Process S) (o : Outcome (Process S))
      → hi' ≤ hi
      → IfDone o (SameBytes lo hi p)
      → IfDone o (SameBytes lo hi' p)
  IfDone-SameBytes lo hi hi' p (done q) l s = λ a g u. s a g (omega arith)
  IfDone-SameBytes lo hi hi' p fault l s = tt
  IfDone-SameBytes lo hi hi' p blocked l s = tt

  Spares-shorter : (lo hi hi' : ℕ) → hi' ≤ hi → Spares lo hi h → Spares lo hi' h
  Spares-shorter lo hi hi' l sp = record {
    transacts = λ t p. IfDone-SameBytes lo hi hi' p (transact h t p) l (sp.transacts t p);
    deaths = λ d p. IfDone-SameBytes lo hi hi' p (h.death d p) l (sp.deaths d p);
  }

  -- What the caller gets, and what has changed beside the read buffer.
  abbrev pub Delivers : Txn → Process S → Called S → Type 0
  Delivers t p c =
      (c.ok ≡ true)
      × (c.reply_bio ≡ bio_init_from_txn t)
      × (c.process.sent ≡ p.sent)
      × (c.process.threads ≡ p.threads)
      × (c.process.service ≡ p.service)

  module _ (readbuf : ℕ) (sp : Spares readbuf (readbuf + 128) h) where
    parse_answer-read :
        (rs : List Return) (waiting : Bool) (answer : BinderIo) (p : Process S)
        → IsAnswer rs
        → parse_answer h readbuf (answer_bytes rs) waiting answer p
          ≡ follow h rs (begin readbuf rs waiting answer p)
    parse_answer-read rs waiting answer p a =
        parse_answer-follow h readbuf rs waiting answer p a.0 (
          Spares-shorter readbuf (readbuf + 128) (readbuf + length (answer_bytes rs))
            (omega (arith, a.1)) sp)

    module _ (before : List Return) (t : Txn) (after : List Return) where
      -- The answer with the reply.
      abbrev pub last : List Return
      last = before ++ (reply t ∷ after)

      follow-last :
          (s : Parsing S)
          → AreQuiet before
          → AreQuiet after
          → follow h last s
            ≡ done (record s {
              ptr = s.ptr + total_size before + 44 + total_size after;
              verdict = replied;
              waiting = false;
              answer = if s.waiting then bio_init_from_txn t else s.answer;
            })
      unfolding follow
      follow-last s q q' = follow-quiet before (reply t ∷ after) s q ∙ follow-all_quiet after _ q'

      await_reply-last :
          (rest : Answers) (r : BinderIo) (p : Process S)
          → IsAnswer last
          → AreQuiet before
          → AreQuiet after
          → Returns (await_reply h readbuf (some (answer_bytes last) ∷ rest) r p) (Delivers t p)
      unfolding await_reply
      await_reply-last rest r p a q q' =
          rw (parse_answer-read last true r p a ∙ follow-last (begin readbuf last true r p) q q')
            (refl, refl, refl, refl, refl)

      -- Answers without a reply are waited over.
      await_reply-Delivers :
          (first : List (List Return)) (rest : Answers) (r : BinderIo) (p : Process S)
          → All (λ rs. IsAnswer rs × AreQuiet rs) first
          → IsAnswer last
          → AreQuiet before
          → AreQuiet after
          → Returns
              (await_reply h readbuf
                (map (λ rs. some (answer_bytes rs)) first ++ (some (answer_bytes last) ∷ rest))
                r
                p)
              (Delivers t p)
      unfolding await_reply
      await_reply-Delivers [] rest r p f a q q' = await_reply-last rest r p a q q'
      await_reply-Delivers (rs ∷ first) rest r p f a q q' =
          rw
            (parse_answer-read rs true r p f.0.0
              ∙ follow-all_quiet rs (begin readbuf rs true r p) f.0.1)
            (await_reply-Delivers first rest r
              (record p { mem = store p.mem readbuf (answer_bytes rs) }) f.1 a q q')

      -- A call whose reply comes returns 0 with the parcel over that reply, and has sent the
      -- transaction and nothing else. Before the reply there may be any number of answers with
      -- messages that ask for nothing, and such messages may stand before and behind it. The
      -- message to send did not overflow, every answer fits the 128 bytes of the read buffer, and
      -- the handlers leave it alone.
      pub binder_call-Delivers :
          (first : List (List Return)) (rest : Answers) (msg r : BinderIo) (target code flags : ℕ)
          (p : Process S)
          → msg.flags.overflow ≡ false
          → All (λ rs. IsAnswer rs × AreQuiet rs) first
          → IsAnswer last
          → AreQuiet before
          → AreQuiet after
          → Returns
              (binder_call h readbuf
                (map (λ rs. some (answer_bytes rs)) first ++ (some (answer_bytes last) ∷ rest))
                msg
                r
                target
                code
                flags
                p)
              (Delivers t (send (transaction (call_txn target code flags msg) ∷ []) p))
      unfolding binder_call call_txn
      binder_call-Delivers first rest msg r target code flags p o f a q q' =
          rw (binder_call, o)
            (await_reply-Delivers first rest r
              (send (transaction (call_txn target code flags msg) ∷ []) p) f a q q')
