-- ===== src/InputManager/Examples.antt =====
-- The input manager of frameworks/inputmanager/InputManager.cpp with one listener and a request.
use zeus_os.Base.{◌≡◌, refl, true, false, some, [], ◌∷◌, arith}
use zeus_os.Memory.{Mem, store, word_bytes}
use zeus_os.Parcel.{Txn, bio_init_from_txn, new_parcel}
use zeus_os.Binder.{acquire, request_death, fault, Process, Returns, UnlessFault}
use zeus_os.Exchange.Answers.{words_bytes}
use zeus_os.InputManager.{
  ListenerDesc, Listening, on_transact, listener_death, with_death, can_print, ends,
}
use zeus_os.InputManager.Listeners.{IsTracked}
use zeus_os.InputManager.Subscriptions.{on_transact-IsTracked}
use zeus_os.InputManager.Delivery.{IsLeft, listener_death-IsLeft}

abbrev pub panel : ListenerDesc
panel = record {
  address = 1000;
  type = 1;
  uid = 5;
  fd = 3;
  name = some 132;
  handle = 7;
  death = 1040;
}

-- A message of 52 bytes at 100: the policy, a type, a uid, a descriptor, a name and a handle, with
-- the offsets of its two objects at 400.
abbrev message_memory : Mem
message_memory =
    store
      (store (λ a. 0) 100
        (words_bytes (0 ∷ 256 ∷ 6 ∷ 0x66642a85 ∷ 0 ∷ 4 ∷ 0 ∷ 1 ∷ 97 ∷ 0x73682a85 ∷ 0 ∷ 9 ∷ 0 ∷ [])))
      400 (words_bytes (12 ∷ 36 ∷ []))

abbrev request : Txn
request = record {
  target = 2000;
  txn_cookie = 0;
  code = 1;
  txn_flags = 0;
  sender_pid = 9;
  sender_euid = 0;
  data_size = 52;
  offsets_size = 8;
  buffer = 100;
  offsets = 400;
}

abbrev populated : Process Listening
populated = record {
  mem = message_memory;
  sent = acquire 7 ∷ request_death 7 1040 ∷ [];
  threads = 0;
  service = record {
    listeners = panel ∷ [];
    mallocs = some 3000 ∷ some 3040 ∷ [];
    dups = 11 ∷ [];
    writes = [];
  };
}

populated-IsTracked : IsTracked populated
populated-IsTracked = record {
  distinct = (tt, tt);
  handled = ((λ e. absurd (omega arith)), tt);
  balanced = λ h. ground arith;
}

on_transact-IsTracked_example :
    UnlessFault
      (on_transact request (bio_init_from_txn request) (new_parcel 4096) populated)
      (λ a. IsTracked a.process)
on_transact-IsTracked_example =
    on_transact-IsTracked request (bio_init_from_txn request) (new_parcel 4096) populated
      populated-IsTracked ((λ e. absurd (omega arith)), tt)

printable : can_print (λ a. true) populated.mem panel.name ≡ true
unfolding ends store word_bytes
printable = refl

listener_death-IsLeft_example :
    (can_print (λ a. true) populated.mem panel.name ≡ true
      → Returns (listener_death (λ a. true) 1040 populated) (IsLeft panel populated))
    × (can_print (λ a. true) populated.mem panel.name ≡ false
        → listener_death (λ a. true) 1040 populated ≡ fault)
unfolding with_death
listener_death-IsLeft_example =
    listener_death-IsLeft (λ a. true) 1040 panel populated refl populated-IsTracked
