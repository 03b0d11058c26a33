-- ===== src/Marshal/Examples.antt =====
-- A message through system/binder/Parcel.cpp at concrete values.
use zeus_os.Base.{◌+◌, ◌≡◌, none, some, List, [], ◌∷◌, map, arith}
use zeus_os.Memory.{Mem, load_word}
use zeus_os.Parcel.{
  BinderIo, no_flags, bio_init_from_txn, take_bytes, get_uint32, get_string8, get_obj,
}
use zeus_os.Binder.{call_txn}
use zeus_os.Marshal.Bounds.{Extends}
use zeus_os.Marshal.Items.{
  Item, uint32, fd, obj, ref, string8, string16, string16_x, put_items, put_items-Extends,
}
use zeus_os.Marshal.RoundTrip.{get_items, kind_of}
use zeus_os.Marshal.Reading.{
  SpansIn, IsWithin, text_length, get_string8-IsWithin, get_string8_wraps,
}
use zeus_os.Marshal.Delivery.{fresh_parcel, new_parcel-InBuffer, get_items-put_items}

abbrev blank : Mem
blank a = 0

-- "hi", a handle and a descriptor, as in a registration.
abbrev message : List Item
message = uint32 0 ∷ string8 (some (104 ∷ 105 ∷ [])) ∷ ref 5 ∷ fd 7 ∷ []

get_items-put_items_example :
    get_items
      (map kind_of message)
      (put_items message (fresh_parcel blank 4096)).mem
      (bio_init_from_txn (call_txn 0 3 0 (put_items message (fresh_parcel blank 4096)).bio))
    ≡ message
get_items-put_items_example =
    get_items-put_items 4096 0 3 0 blank message (omega arith) (omega arith) (omega arith)
      (omega arith)

-- NULL and wide strings, and more objects than there are offsets entries.
abbrev crowd : List Item
crowd =
    obj 1
    ∷ obj 2
    ∷ ref 0
    ∷ ref 3
    ∷ fd 4
    ∷ fd 5
    ∷ string8 none
    ∷ string16 (some (1 ∷ []))
    ∷ string16_x (some (2 ∷ []))
    ∷ []

put_items-Extends_example :
    Extends 4096 (fresh_parcel blank 4096) (put_items crowd (fresh_parcel blank 4096))
put_items-Extends_example =
    put_items-Extends crowd (fresh_parcel blank 4096) (new_parcel-InBuffer 4096 (omega arith))

-- A message of 24 bytes at 100.
abbrev received : BinderIo
received = record {
  data_ptr = 100;
  offs = 124;
  data_avail = 24;
  offs_avail = 0;
  data0 = 100;
  offs0 = 124;
  flags = no_flags;
}

get_string8-IsWithin_example :
    (SpansIn 100 124 (text_length (λ a. 0) received + 1) (get_string8 (λ a. 0) received).0
      × IsWithin 100 124 (get_string8 (λ a. 0) received).2)
    × (SpansIn 100 124 16 (get_obj (λ a. 0) received).0
        × IsWithin 100 124 (get_obj (λ a. 0) received).1)
unfolding get_uint32 take_bytes load_word
get_string8-IsWithin_example =
    get_string8-IsWithin 100 124 (λ a. 0) received (omega arith) (omega arith)

get_string8_wraps_example :
    let rest = (get_uint32 (λ a. 255) received).1 in
    ((get_string8 (λ a. 255) received).0 ≡ some rest.data_ptr)
    × ((get_string8 (λ a. 255) received).2.data_ptr ≡ rest.data_ptr)
    × ((get_string8 (λ a. 255) received).2.data_avail ≡ rest.data_avail)
unfolding get_uint32 take_bytes load_word
get_string8_wraps_example =
    get_string8_wraps 100 124 (λ a. 255) received (omega arith) (omega arith) (omega arith)
