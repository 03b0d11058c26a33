-- ===== src/Exchange/Keeping.antt =====
-- What binderParse and the loops of system/binder/Binder.cpp keep of the state of a process, when
-- its handlers keep it.
use zeus_os.Base.{
  ℕ, zero, suc, ◌+◌, ◌-◌, ◌==◌, ◌||◌, Bool, true, false, none, some, List, [], ◌∷◌, ltb,
  if◌then◌else◌, Bool-cases, inl, inr,
}
use zeus_os.Memory.{load_word, store}
use zeus_os.Parcel.{Txn}
use zeus_os.Binder.{
  Outcome, done, fault, blocked, Process, UnlessFault, Handlers, Parsing, Verdict, looping, replied,
  failed, Next, go, stop, transact, take_reply, parse_step, binder_parse, parse_answer, read_txn,
  br_noop, br_transaction_complete, br_increfs, br_acquire, br_release, br_decrefs, br_spawn_looper,
  br_transaction, br_reply, br_dead_binder, br_failed_reply, br_dead_reply, txn_size, io_error,
  Answers, Loop, serving, left, serve, binder_loop, send, enter_looper,
}
use zeus_os.Exchange.Returns.{IfDone}
use zeus_os.Exchange.Parsing.{IfDone-bind}
use zeus_os.Exchange.Ends.{AreFinite}
use zeus_os.Exchange.Loops.{binder_loop_ends}

IfDone-if {ℓ} :
    {A : Type ℓ} (b : Bool) (o o' : Outcome A) (Q : A → Type 0)
    → IfDone o Q
    → IfDone o' Q
    → IfDone (if b then o else o') Q
IfDone-if true o o' Q h k = h
IfDone-if false o o' Q h k = k

-- A run that ends and has the property if it returns has it unless its behaviour is undefined.
IfDone-UnlessFault {ℓ} :
    {A : Type ℓ} (o : Outcome A) (P Q : A → Type 0) → UnlessFault o P → IfDone o Q → UnlessFault o Q
IfDone-UnlessFault (done a) P Q h k = k
IfDone-UnlessFault fault P Q h k = tt
IfDone-UnlessFault blocked P Q h k = h

UnlessFault-IfDone {ℓ} :
    {A : Type ℓ} (o : Outcome A) (Q : A → Type 0) → UnlessFault o Q → IfDone o Q
UnlessFault-IfDone (done a) Q h = h
UnlessFault-IfDone fault Q h = tt
UnlessFault-IfDone blocked Q h = tt

-- Where a loop leaves its process.
abbrev pub LoopKeeps {ℓ} : {S : Type 0} → (Process S → Type ℓ) → Loop S → Type ℓ
LoopKeeps Inv (serving p) = Inv p
LoopKeeps Inv (left p) = Inv p

-- The bytes of each successful answer.
abbrev pub AllData : (List ℕ → Type 0) → Answers → Type 0
AllData IsData [] = Unit
AllData IsData (none ∷ rest) = AllData IsData rest
AllData IsData (some bytes ∷ rest) = IsData bytes × AllData IsData rest

module _ {S : Type 0} where
  -- The handlers, a thread that is started, a loop that is entered and the bytes that the driver
  -- puts into the read buffer keep the invariant; the handlers come to an end on it.
  pub record Keeps (readbuf : ℕ) (IsData : List ℕ → Type 0) (Inv : Process S → Type 0)
      (h : Handlers S) : Type 0 where
    pub transacts : (t : Txn) (p : Process S) → Inv p → UnlessFault (transact h t p) Inv
    pub deaths : (d : ℕ) (p : Process S) → Inv p → UnlessFault (h.death d p) Inv
    pub starts : (p : Process S) → Inv p → Inv (record p { threads = suc (p.threads) })
    pub enters : (p : Process S) → Inv p → Inv (send (enter_looper ∷ []) p)
    pub reads :
        (bytes : List ℕ) (p : Process S)
        → IsData bytes
        → Inv p
        → Inv (record p { mem = store (p.mem) readbuf bytes })

  module _ (readbuf : ℕ) (IsData : List ℕ → Type 0) (Inv : Process S → Type 0) (h : Handlers S)
      (keeps : Keeps readbuf IsData Inv h) where
    abbrev NextKeeps : Next S → Type 0
    NextKeeps (go s) = Inv s.process
    NextKeeps (stop s) = Inv s.process

    take_reply-Inv : (s : Parsing S) → Inv s.process → Inv (take_reply s).process
    unfolding take_reply
    take_reply-Inv s i = elim (Bool-cases s.waiting) [ inl y ↦ rw y i | inr n ↦ rw n i ]

    parse_step-NextKeeps :
        (cmd end : ℕ) (s : Parsing S) → Inv s.process → IfDone (parse_step h cmd end s) NextKeeps
    unfolding parse_step
    parse_step-NextKeeps cmd end s i =
        IfDone-if (cmd == br_noop || cmd == br_transaction_complete) _ _ NextKeeps i (
          IfDone-if
            (cmd == br_increfs || cmd == br_acquire || cmd == br_release || cmd == br_decrefs) _ _
            NextKeeps i
            (IfDone-if (cmd == br_spawn_looper) _ _ NextKeeps (keeps.starts s.process i) (
              IfDone-if (cmd == br_transaction) _ _ NextKeeps
                (IfDone-if (ltb (end - s.ptr) txn_size) _ _ NextKeeps i (
                  IfDone-bind (transact h (read_txn s.process.mem s.ptr) s.process) _ Inv NextKeeps
                    (UnlessFault-IfDone _ Inv (keeps.transacts _ s.process i)) (λ q k. k)))
                (IfDone-if (cmd == br_reply) _ _ NextKeeps
                  (IfDone-if (ltb (end - s.ptr) txn_size) _ _ NextKeeps i (take_reply-Inv s i))
                  (IfDone-if (cmd == br_dead_binder) _ _ NextKeeps
                    (IfDone-bind (h.death (load_word s.process.mem s.ptr) s.process) _ Inv NextKeeps
                      (UnlessFault-IfDone _ Inv (keeps.deaths _ s.process i)) (λ q k. k))
                    (IfDone-if (cmd == br_failed_reply || cmd == br_dead_reply) _ _ NextKeeps i
                      i))))))

    after_round :
        (f end : ℕ)
        → ((s : Parsing S) → Inv s.process → IfDone (binder_parse f h end s) (λ s'. Inv s'.process))
        → (n : Next S) → NextKeeps n
        → IfDone
            (elim n [ go s' ↦ binder_parse f h end s' | stop s' ↦ done s' ])
            (λ s'. Inv s'.process)
    after_round f end ih (go s) k = ih s k
    after_round f end ih (stop s) k = k

    binder_parse-Inv :
        (f end : ℕ) (s : Parsing S)
        → Inv s.process
        → IfDone (binder_parse f h end s) (λ s'. Inv s'.process)
    unfolding binder_parse
    binder_parse-Inv zero end s i = tt
    binder_parse-Inv (suc f) end s i = elim (Bool-cases (ltb s.ptr end)) [
      | inr n ↦ rw (binder_parse, n) i
      | inl y ↦
          rw (binder_parse, y)
            (IfDone-bind
              (parse_step h (load_word s.process.mem s.ptr) end (record s { ptr = s.ptr + 4 })) _
              NextKeeps _ (parse_step-NextKeeps _ end (record s { ptr = s.ptr + 4 }) i)
              (after_round f end (binder_parse-Inv f end)))
    ]

    after_answer :
        (rest : Answers) (s : Parsing S)
        → Inv s.process
        → ((p : Process S) → Inv p → IfDone (serve h readbuf rest p) (LoopKeeps Inv))
        → (v : Verdict)
        → IfDone
            (elim v [
              | looping ↦ serve h readbuf rest s.process
              | replied ↦ done (left s.process)
              | failed ↦ done (left s.process)
            ])
            (LoopKeeps Inv)
    after_answer rest s i ih looping = ih s.process i
    after_answer rest s i ih replied = i
    after_answer rest s i ih failed = i

    serve-Inv :
        (answers : Answers) (p : Process S)
        → AllData IsData answers
        → Inv p
        → IfDone (serve h readbuf answers p) (LoopKeeps Inv)
    unfolding serve parse_answer
    serve-Inv [] p d i = i
    serve-Inv (none ∷ rest) p d i = i
    serve-Inv (some bytes ∷ rest) p d i =
        IfDone-bind (parse_answer h readbuf bytes false io_error p) _ (λ s. Inv s.process)
          (LoopKeeps Inv) (binder_parse-Inv _ _ _ (keeps.reads bytes p d.0 i))
          (λ s k. after_answer rest s k (λ q j. serve-Inv rest q d.1 j) s.verdict)

    -- Whatever the driver answers, the main loop comes to its `break` or to the next call of ioctl
    -- with the invariant in force, unless its behaviour is undefined.
    pub binder_loop-Inv :
        AreFinite h
        → (answers : Answers) (p : Process S) → AllData IsData answers
        → Inv p
        → UnlessFault (binder_loop h readbuf answers p) (LoopKeeps Inv)
    unfolding binder_loop
    binder_loop-Inv fin answers p d i =
        IfDone-UnlessFault (binder_loop h readbuf answers p) _ _
          (binder_loop_ends h fin readbuf answers p).0
          (serve-Inv answers (send (enter_looper ∷ []) p) d (keeps.enters p i))
