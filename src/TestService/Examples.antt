-- ===== src/TestService/Examples.antt =====
-- A greeting of frameworks/testservice/TestService.cpp, with a copy that stands where the message was.
use zeus_os.Base.{ℕ, refl, some, List, [], ◌∷◌, arith}
use zeus_os.Parcel.{Parcel, Txn, bio_init_from_txn, new_parcel}
use zeus_os.Binder.{Process, Returns, call_txn}
use zeus_os.Exchange.Examples.{counter, start}
use zeus_os.Marshal.Items.{put_items, put_item}
use zeus_os.Marshal.Requests.{IsCopy, put_items-IsNamed}
use zeus_os.Proxies.{Client, service_message}
use zeus_os.TestService.{Greeter, on_transact}
use zeus_os.TestService.Greetings.{IsGreeted, on_transact-IsGreeted}

abbrev visitor : Client ℕ
visitor = record {
  handlers = counter;
  readbuf = 600;
  answers = [];
  msg_buffer = 2048;
  reply_buffer = 16384;
}

abbrev hi : List ℕ
hi = 104 ∷ 105 ∷ []

abbrev letter : Parcel
letter = service_message (some hi) visitor start

abbrev letter_txn : Txn
letter_txn = call_txn 5 1 0 letter.bio

abbrev silent : Process Greeter
silent = record { mem = letter.mem; sent = []; threads = 0; service = record { printed = [] } }

letter-IsCopy : IsCopy letter.mem letter_txn letter.mem letter_txn
unfolding put_items put_item
letter-IsCopy = record {
  same_size = refl;
  fits = (put_items-IsNamed 2048 5 1 0 start.mem hi (omega arith) (omega arith)).in_space;
  same_bytes = λ k l. refl;
}

on_transact-IsGreeted_example :
    Returns
      (on_transact letter_txn (bio_init_from_txn letter_txn) (new_parcel 8192) silent)
      (IsGreeted hi silent)
unfolding call_txn
on_transact-IsGreeted_example =
    on_transact-IsGreeted visitor start 5 8192 hi letter_txn silent (omega arith) (omega arith)
      ((λ e. absurd (omega arith)), ((λ e. absurd (omega arith)), tt)) letter-IsCopy refl
      (omega arith)
