-- ===== src/Exchange/Ends.antt =====
-- binderParse, binderCall and binderDone of system/binder/Binder.cpp on a read buffer with any bytes.
use zeus_os.Base.{
  ℕ, zero, suc, ◌+◌, ◌-◌, ◌≤◌, ◌<◌, ◌≡◌, refl, ◌==◌, ◌||◌, inl, inr, true, false, Bool, Bool-cases,
  List, arith, ltb, ltb→lt, length,
}
use zeus_os.Memory.{load_word, store}
use zeus_os.Parcel.{BinderIo, Txn, bio_init_from_txn}
use zeus_os.Binder.{
  done, Process, UnlessFault, UnlessFault-bind, UnlessFault-if, UnlessFault-weaken, Handlers,
  Parsing, looping, replied, failed, Next, go, stop, transact, take_reply, parse_step, binder_parse,
  parse_answer, read_txn, br_noop, br_transaction_complete, br_increfs, br_acquire, br_release,
  br_decrefs, br_spawn_looper, br_transaction, br_reply, br_dead_binder, br_failed_reply,
  br_dead_reply, txn_size,
}

module _ {S : Type 0} where
  -- The handlers come to an end.
  pub record AreFinite (h : Handlers S) : Type 0 where
    pub transacts : (t : Txn) (p : Process S) → UnlessFault (transact h t p) (λ q. Unit)
    pub deaths : (d : ℕ) (p : Process S) → UnlessFault (h.death d p) (λ q. Unit)

  -- A reply that counts was taken, and one that was taken is shared with the driver.
  abbrev pub IsSettled : Parsing S → Type 0
  IsSettled s =
      (s.verdict ≡ replied → s.waiting ≡ false) × (s.waiting ≡ false → s.answer.flags.shared ≡ true)

  -- The pointer does not go back.
  abbrev pub Moves : Parsing S → Parsing S → Type 0
  Moves s s' = (s.ptr ≤ s'.ptr) × (IsSettled s → IsSettled s')

  abbrev pub Follows : Parsing S → Next S → Type 0
  Follows s (go s') = Moves s s'
  Follows s (stop s') = Moves s s'

  give_up-Moves : (s : Parsing S) → Moves s (record s { verdict = failed })
  give_up-Moves s = (omega arith, λ i. (λ e. cc, i.1))

  take_reply-Moves : (s : Parsing S) → Moves s (take_reply s)
  unfolding take_reply bio_init_from_txn
  take_reply-Moves s = elim (Bool-cases s.waiting) [
    | inl y ↦ rw y (omega arith, λ i. (λ _. refl, λ _. refl))
    | inr n ↦ rw n (omega arith, λ i. (λ _. refl, i.1))
  ]

  module _ (h : Handlers S) (fin : AreFinite h) (end : ℕ) where
    parse_step-Follows :
        (cmd : ℕ) (s : Parsing S) → UnlessFault (parse_step h cmd end s) (Follows s)
    unfolding parse_step
    parse_step-Follows cmd s =
        UnlessFault-if (cmd == br_noop || cmd == br_transaction_complete) _ _ (Follows s)
          (omega arith, λ i. i)
          (UnlessFault-if
            (cmd == br_increfs || cmd == br_acquire || cmd == br_release || cmd == br_decrefs) _ _
            (Follows s) (omega arith, λ i. i)
            (UnlessFault-if (cmd == br_spawn_looper) _ _ (Follows s) (omega arith, λ i. i)
              (UnlessFault-if (cmd == br_transaction) _ _ (Follows s)
                (UnlessFault-if (ltb (end - s.ptr) txn_size) _ _ (Follows s) (give_up-Moves s) (
                  UnlessFault-bind (transact h (read_txn s.process.mem s.ptr) s.process) _
                    (λ q. Unit) (Follows s) (fin.transacts _ _) (λ q u. (omega arith, λ i. i))))
                (UnlessFault-if (cmd == br_reply) _ _ (Follows s)
                  (UnlessFault-if (ltb (end - s.ptr) txn_size) _ _ (Follows s) (give_up-Moves s)
                    (take_reply-Moves s))
                  (UnlessFault-if (cmd == br_dead_binder) _ _ (Follows s)
                    (UnlessFault-bind (h.death (load_word s.process.mem s.ptr) s.process) _
                      (λ q. Unit) (Follows s) (fin.deaths _ _) (λ q u. (omega arith, λ i. i)))
                    (UnlessFault-if (cmd == br_failed_reply || cmd == br_dead_reply) _ _ (Follows s)
                      (give_up-Moves s) (give_up-Moves s)))))))

    after_round :
        (f : ℕ) (s : Parsing S)
        → s.ptr < end
        → end - s.ptr < suc f
        → ((s' : Parsing S) → end - s'.ptr < f → UnlessFault (binder_parse f h end s') (Moves s'))
        → (n : Next S) → Follows (record s { ptr = s.ptr + 4 }) n
        → UnlessFault (elim n [ go s' ↦ binder_parse f h end s' | stop s' ↦ done s' ]) (Moves s)
    after_round f s lt l ih (go s') m =
        UnlessFault-weaken (binder_parse f h end s') (Moves s') (Moves s)
          (ih s' (omega (arith, m.0))) (λ s'' m'. (omega (arith, m.0, m'.0), λ i. m'.1 (m.1 i)))
    after_round f s lt l ih (stop s') m = (omega (arith, m.0), m.1)

    -- binderParse comes to an end on any bytes, when it has a round for every byte.
    binder_parse-Moves :
        (f : ℕ) (s : Parsing S) → end - s.ptr < f → UnlessFault (binder_parse f h end s) (Moves s)
    unfolding binder_parse
    binder_parse-Moves zero s l = absurd (omega arith)
    binder_parse-Moves (suc f) s l = elim (Bool-cases (ltb s.ptr end)) [
      | inr n ↦ rw (binder_parse, n) (omega arith, λ i. i)
      | inl y ↦
          rw (binder_parse, y)
            (UnlessFault-bind
              (parse_step h (load_word s.process.mem s.ptr) end (record s { ptr = s.ptr + 4 })) _
              (Follows (record s { ptr = s.ptr + 4 })) (Moves s)
              (parse_step-Follows (load_word s.process.mem s.ptr) (record s { ptr = s.ptr + 4 }))
              (λ n m. after_round f s (ltb→lt s.ptr end y) l (binder_parse-Moves f) n m))
    ]

    pub parse_answer-IsSettled :
        (readbuf : ℕ) (bytes : List ℕ) (answer : BinderIo) (p : Process S)
        → end ≡ readbuf + length bytes
        → UnlessFault (parse_answer h readbuf bytes true answer p) IsSettled
    unfolding parse_answer
    parse_answer-IsSettled readbuf bytes answer p e = rw (← e) (
        UnlessFault-weaken
          (binder_parse (suc (length bytes)) h end (record {
            ptr = readbuf;
            verdict = looping;
            waiting = true;
            answer = answer;
            process = record p { mem = store p.mem readbuf bytes };
          }))
          _ IsSettled (binder_parse-Moves (suc (length bytes)) _ (omega arith))
          (λ s m. m.1 (λ c. cc, λ c. cc)))

    pub parse_answer_ends :
        (readbuf : ℕ) (bytes : List ℕ) (waiting : Bool) (answer : BinderIo) (p : Process S)
        → end ≡ readbuf + length bytes
        → UnlessFault (parse_answer h readbuf bytes waiting answer p) (λ s. Unit)
    unfolding parse_answer
    parse_answer_ends readbuf bytes waiting answer p e = rw (← e) (
        UnlessFault-weaken
          (binder_parse (suc (length bytes)) h end (record {
            ptr = readbuf;
            verdict = looping;
            waiting = waiting;
            answer = answer;
            process = record p { mem = store (p.mem) readbuf bytes };
          }))
          _ (λ s. Unit) (binder_parse-Moves (suc (length bytes)) _ (omega arith)) (λ s m. tt))
