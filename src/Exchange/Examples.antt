-- ===== src/Exchange/Examples.antt =====
-- The exchange with the driver, system/binder/Binder.cpp, at concrete messages.
use zeus_os.Base.{
  ℕ, ◌+◌, ◌≡◌, refl, Bool-cases, inl, inr, false, none, some, List, [], ◌∷◌, arith, ◌==◌,
}
use zeus_os.Memory.{word_bytes}
use zeus_os.Parcel.{BinderIo, Txn, new_parcel}
use zeus_os.Binder.{
  UnlessFault, binder_loop, binder_thread_loop, done, Process, Returns, Handler, Handlers, transact,
  parse_answer, binder_call, call_txn, send, transaction, binder_send_reply, io_error,
}
use zeus_os.Exchange.Returns.{Return, noop, complete, reply, dead_binder, Spares, follow, IfDone}
use zeus_os.Exchange.Answers.{answer_bytes, begin, parse_answer-follow}
use zeus_os.Exchange.Ends.{AreFinite}
use zeus_os.Exchange.Loops.{binder_loop_ends}
use zeus_os.Exchange.Calls.{IsReleasable, binder_call-IsReleasable}
use zeus_os.Exchange.Replies.{noop_quiet, complete_quiet, Delivers, binder_call-Delivers}

-- A service that says 0 to everything, and counts the deaths it hears of.
abbrev idle : Handler ℕ
idle t msg r p = done (record { status = 0; reply_bio = r; process = p })

abbrev pub counter : Handlers ℕ
counter = record {
  object = λ a. idle;
  manager = idle;
  death = λ d p. done (record p { service = p.service + d });
  reply_buffer = 4096;
  status_at = 8192;
}

pub counter-Spares : (hi : ℕ) → Spares 600 hi counter
unfolding transact binder_send_reply
counter-Spares hi = record {
  transacts = λ t p. elim (Bool-cases (t.target == 0)) [
    | inl y ↦ rw y (λ a l u. refl)
    | inr n ↦ rw n (λ a l u. refl)
  ];
  deaths = λ d p a l u. refl;
}

counter-AreFinite : AreFinite counter
unfolding transact
counter-AreFinite = record {
  transacts = λ t p. elim (Bool-cases (t.target == 0)) [ inl y ↦ rw y tt | inr n ↦ rw n tt ];
  deaths = λ d p. tt;
}

abbrev pub start : Process ℕ
start = record { mem = λ a. 0; sent = []; threads = 0; service = 0 }

abbrev pub answered : Txn
answered = record {
  target = 0;
  txn_cookie = 0;
  code = 0;
  txn_flags = 0;
  sender_pid = 1;
  sender_euid = 2;
  data_size = 4;
  offsets_size = 0;
  buffer = 300;
  offsets = 304;
}

abbrev request_bio : BinderIo
request_bio = new_parcel 2048

abbrev heard : List Return
heard = noop ∷ dead_binder 5 ∷ []

parse_answer-follow_example :
    parse_answer counter 600 (answer_bytes heard) false io_error start
    ≡ follow counter heard (begin 600 heard false io_error start)
parse_answer-follow_example =
    parse_answer-follow counter 600 heard false io_error start
      ((omega arith, tt), ((omega arith, (omega arith, tt)), tt)) (counter-Spares _)

binder_call-IsReleasable_example :
    IfDone
      (binder_call counter 600
        (some (answer_bytes (reply answered ∷ [])) ∷ [])
        request_bio
        request_bio
        7
        2
        0
        start)
      IsReleasable
binder_call-IsReleasable_example =
    binder_call-IsReleasable counter counter-AreFinite 600
      (some (answer_bytes (reply answered ∷ [])) ∷ []) request_bio request_bio 7 2 0 start

binder_call-Delivers_example :
    Returns
      (binder_call counter 600
        (some (answer_bytes (noop ∷ []))
          ∷ some (answer_bytes (complete ∷ reply answered ∷ noop ∷ []))
          ∷ [])
        request_bio
        request_bio
        7
        2
        0
        start)
      (Delivers counter answered (send (transaction (call_txn 7 2 0 request_bio) ∷ []) start))
unfolding new_parcel word_bytes
binder_call-Delivers_example =
    binder_call-Delivers counter 600 (counter-Spares _) (complete ∷ []) answered (noop ∷ [])
      ((noop ∷ []) ∷ []) [] request_bio request_bio 7 2 0 start refl
      ((((((omega arith), tt), tt), omega arith), (noop_quiet, tt)), tt) (omega arith)
      (complete_quiet, tt) (noop_quiet, tt)

binder_loop_ends_example :
    UnlessFault (binder_loop counter 600 (some (answer_bytes heard) ∷ none ∷ []) start) (λ l. Unit)
    × UnlessFault
        (binder_thread_loop counter 600 (some (answer_bytes heard) ∷ none ∷ []) start)
        (λ l. Unit)
binder_loop_ends_example =
    binder_loop_ends counter counter-AreFinite 600 (some (answer_bytes heard) ∷ none ∷ []) start
