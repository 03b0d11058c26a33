-- ===== src/Binder/Parse.antt =====
-- binderParse of system/binder/Binder.cpp: the loop over what the driver put into the read buffer.
-- The virtual onTransact of the objects in the process, and the function of a BinderDeath, are
-- arguments.
use zeus_os.Base.{ℕ, zero, suc, ◌+◌, ◌-◌, Bool, true, false, ◌||◌, ltb, ◌==◌, if◌then◌else◌}
use zeus_os.Memory.{Mem, load_word}
use zeus_os.Parcel.{BinderIo, Txn, bio_init_from_txn, new_parcel}
use zeus_os.Binder.Protocol.{
  txn_size, ptr_cookie_size, br_noop, br_transaction_complete, br_increfs, br_acquire, br_release,
  br_decrefs, br_spawn_looper, br_transaction, br_reply, br_dead_binder, br_failed_reply,
  br_dead_reply,
}
use zeus_os.Binder.Session.{Outcome, done, blocked, ◌>>=◌, Process, binder_send_reply}

-- What an onTransact returns, with the reply parcel and the process as it leaves them.
pub record Answer (S : Type 0) : Type 0 where
  pub status : ℕ
  pub reply_bio : BinderIo
  pub process : Process S

abbrev pub Handler : Type 0 → Type 0
Handler S = Txn → BinderIo → BinderIo → Process S → Outcome (Answer S)

-- `object` is the onTransact of the object at an address, `manager` that of BnServiceManager,
-- `death` what the BinderDeath at an address does. `reply_buffer` is where `new` puts the bytes of
-- the reply parcel, and `status_at` where binderSendReply has its `status`.
pub record Handlers (S : Type 0) : Type 0 where
  pub object : ℕ → Handler S
  pub manager : Handler S
  pub death : ℕ → Process S → Outcome (Process S)
  pub reply_buffer : ℕ
  pub status_at : ℕ

-- The local `r`: 1, 0 or -1.
pub data Verdict : Type 0 where
  looping replied failed : Verdict

-- The locals of binderParse: `waiting` says that `bio` is not NULL, and `answer` is what
-- `data->mBio` holds.
pub record Parsing (S : Type 0) : Type 0 where
  pub ptr : ℕ
  pub verdict : Verdict
  pub waiting : Bool
  pub answer : BinderIo
  pub process : Process S

-- One round of the loop ends in the next or in `return -1`.
pub data Next (S : Type 0) : Type 0 where
  go stop : Parsing S → Next S

abbrev pub read_txn : Mem → ℕ → Txn
read_txn m p = record {
  target = load_word m p;
  txn_cookie = load_word m (p + 4);
  code = load_word m (p + 8);
  txn_flags = load_word m (p + 12);
  sender_pid = load_word m (p + 16);
  sender_euid = load_word m (p + 20);
  data_size = load_word m (p + 24);
  offsets_size = load_word m (p + 28);
  buffer = load_word m (p + 32);
  offsets = load_word m (p + 36);
}

module _ {S : Type 0} where
  -- The case BR_TRANSACTION.
  unfoldable pub transact : Handlers S → Txn → Process S → Outcome (Process S)
  transact h txn p = do
    let handler : Handler S = if txn.target == 0 then h.manager else h.object txn.target
    a ← handler txn (bio_init_from_txn txn) (new_parcel h.reply_buffer) p
    done (binder_send_reply a.reply_bio txn.buffer a.status h.status_at a.process)

  abbrev give_up : Parsing S → Outcome (Next S)
  give_up s = done (stop (record s { verdict = failed }))

  -- The case BR_REPLY: the first reply is taken, a later one is dropped.
  unfoldable pub take_reply : Parsing S → Parsing S
  take_reply s =
      if s.waiting
      then record s {
        ptr = s.ptr + txn_size;
        verdict = replied;
        waiting = false;
        answer = bio_init_from_txn (read_txn s.process.mem s.ptr);
      }
      else record s { ptr = s.ptr + txn_size; verdict = replied }

  -- The switch, with `ptr` behind the command word.
  unfoldable pub parse_step : Handlers S → ℕ → ℕ → Parsing S → Outcome (Next S)
  parse_step h cmd end s =
      if cmd == br_noop || cmd == br_transaction_complete
      then done (go s)
      else if cmd == br_increfs || cmd == br_acquire || cmd == br_release || cmd == br_decrefs
      then done (go (record s { ptr = s.ptr + ptr_cookie_size }))
      else if cmd == br_spawn_looper
      then done
          (go (record s { process = record (s.process) { threads = suc (s.process.threads) } }))
      else if cmd == br_transaction
      then (if ltb (end - s.ptr) txn_size then give_up s else do
        p ← transact h (read_txn s.process.mem s.ptr) s.process
        done (go (record s { ptr = s.ptr + txn_size; process = p })))
      else if cmd == br_reply
      then (if ltb (end - s.ptr) txn_size then give_up s else done (go (take_reply s)))
      else if cmd == br_dead_binder
      then (do
        p ← h.death (load_word s.process.mem s.ptr) s.process
        done (go (record s { ptr = s.ptr + 4; process = p })))
      else if cmd == br_failed_reply || cmd == br_dead_reply
      then done (go (record s { verdict = failed }))
      else give_up s

  -- `while (ptr < end)`, on fuel; a round that is not made for lack of it is `blocked`.
  unfoldable pub binder_parse : ℕ → Handlers S → ℕ → Parsing S → Outcome (Parsing S)
  binder_parse zero h end s = blocked
  binder_parse (suc f) h end s = elim (ltb s.ptr end) [
    | false ↦ done s
    | true ↦
        parse_step h (load_word s.process.mem s.ptr) end (record s { ptr = s.ptr + 4 })
        >>= elim [ go s' ↦ binder_parse f h end s' | stop s' ↦ done s' ]
  ]
