-- ===== src/Proxies/Examples.antt =====
-- A lookup through BpServiceManager of frameworks/servicemanager/ServiceManager.cpp.
use zeus_os.Base.{ℕ, refl, some, [], ◌∷◌, ◌++◌, arith}
use zeus_os.Memory.{word_bytes}
use zeus_os.Parcel.{new_parcel, put_uint32, put_string8, bio_alloc}
use zeus_os.Binder.{Returns, transaction, call_txn}
use zeus_os.Exchange.Returns.{noop, complete, reply}
use zeus_os.Exchange.Answers.{answer_bytes}
use zeus_os.Exchange.Replies.{noop_quiet, complete_quiet}
use zeus_os.Exchange.Examples.{counter, counter-Spares, start, answered}
use zeus_os.Proxies.{Client, service_message, bp_get_service}
use zeus_os.Proxies.Lookup.{IsClaimed, bp_get_service-IsClaimed}

abbrev client : Client ℕ
client = record {
  handlers = counter;
  readbuf = 600;
  answers =
      some (answer_bytes (noop ∷ []))
      ∷ some (answer_bytes (complete ∷ reply answered ∷ noop ∷ []))
      ∷ [];
  msg_buffer = 2048;
  reply_buffer = 4096;
}

bp_get_service-IsClaimed_example : Returns (bp_get_service client 0 (some (104 ∷ [])) start) (
    IsClaimed answered (
      start.sent
      ++ transaction (call_txn 0 2 0 (service_message (some (104 ∷ [])) client start).bio) ∷ []))
unfolding new_parcel put_uint32 put_string8 bio_alloc word_bytes
bp_get_service-IsClaimed_example =
    bp_get_service-IsClaimed client ((noop ∷ []) ∷ []) (complete ∷ []) (noop ∷ []) answered [] 0
      (some (104 ∷ [])) start (counter-Spares _) refl refl
      ((((((omega arith), tt), tt), omega arith), (noop_quiet, tt)), tt) (omega arith)
      (complete_quiet, tt) (noop_quiet, tt)
