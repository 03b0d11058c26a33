-- ===== src/InputManager/Arrivals.antt =====
-- What arrives of a message of BpInputManager of frameworks/inputmanager/InputManager.cpp.
use zeus_os.Base.{◌≡◌, some, [], ◌∷◌, arith}
use zeus_os.Parcel.{bio_init_from_txn}
use zeus_os.Marshal.Items.{uint32, fd, obj, ref, string8, put_items, put_item}
use zeus_os.Marshal.RoundTrip.{get_items, word, descriptor, text, reference}
use zeus_os.Marshal.Transit.{get_items-delivered}
use zeus_os.Exchange.Examples.{start}
use zeus_os.InputManager.Joins.{guest_translation, joining_txn, delivered_mem, joining-IsDelivered}
use zeus_os.Proxies.{accept_fds}

get_items-delivered_example :
    get_items
      (word ∷ word ∷ word ∷ descriptor ∷ text ∷ reference ∷ [])
      delivered_mem
      (bio_init_from_txn joining_txn)
    ≡ uint32 0 ∷ uint32 1 ∷ uint32 6 ∷ fd 8 ∷ string8 (some (104 ∷ 105 ∷ [])) ∷ ref 9 ∷ []
unfolding put_items put_item
get_items-delivered_example =
    get_items-delivered 2048 3 1 accept_fds start.mem
      (uint32 0 ∷ uint32 1 ∷ uint32 6 ∷ fd 5 ∷ string8 (some (104 ∷ 105 ∷ [])) ∷ obj 77 ∷ [])
      guest_translation delivered_mem joining_txn (omega arith)
      (omega arith, (omega arith, (omega arith, (omega arith, (omega arith, (omega arith, tt))))))
      (tt, (tt, (tt, (tt, (tt, (tt, tt))))))
      (
        omega arith,
        (
          omega arith,
          (omega arith, (omega arith, (omega arith, ((omega arith, omega arith), tt)))),
        ),
      )
      (omega arith) (omega arith) joining-IsDelivered
