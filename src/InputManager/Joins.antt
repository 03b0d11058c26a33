-- ===== src/InputManager/Joins.antt =====
-- A listener that joins frameworks/inputmanager/InputManager.cpp, where the driver delivers its
-- message to the place where it was.
use zeus_os.Base.{
  ℕ, zero, suc, ◌+◌, ◌*◌, ◌/◌, ◌<◌, ◌≤◌, ◌≡◌, ◌⊎◌, inl, inr, refl, ap, ◌∙◌, some, [], ◌∷◌, arith,
}
use zeus_os.Memory.{
  Mem, store, load_word, word_bytes, store_frame, load_word-store_self, load_word-agree,
}
use zeus_os.Parcel.{
  Parcel, Txn, bio_init_from_txn, new_parcel, put_obj, put_uint32, put_string8, put_fd, bio_alloc,
  bio_alloc_obj, note_obj, binder_type_handle, binder_type_binder, binder_type_fd,
}
use zeus_os.Binder.{Process, Returns, call_txn}
use zeus_os.Exchange.Examples.{counter, start}
use zeus_os.Marshal.Translation.{IsDelivered, Translation, offset_at}
use zeus_os.InputManager.{Listening, on_transact}
use zeus_os.InputManager.Delivery.{IsSubscribed}
use zeus_os.InputManager.Joining.{on_transact-listener_message}
use zeus_os.InputManager.Examples.{panel}
use zeus_os.Proxies.{Client, listener_message, accept_fds}

-- The handle 9 and the descriptor 8.
abbrev pub guest_translation : Translation
guest_translation = record { handle_for = λ node. 9; fd_for = λ fd. 8 }

abbrev guest : Client ℕ
guest = record {
  handlers = counter;
  readbuf = 600;
  answers = [];
  msg_buffer = 2048;
  reply_buffer = 16384;
}

-- The type 1, the uid 6, the descriptor 5, "hi" and the node 77.
abbrev pub joining : Parcel
joining = put_obj 77 (listener_message 1 6 5 (some (104 ∷ 105 ∷ [])) guest start)

abbrev pub joining_txn : Txn
joining_txn = call_txn 3 1 accept_fds joining.bio

abbrev fd_stored : Mem
fd_stored = store joining.mem 2084 (word_bytes 8)

abbrev type_stored : Mem
type_stored = store fd_stored 2100 (word_bytes binder_type_handle)

abbrev pub delivered_mem : Mem
delivered_mem = store type_stored 2108 (word_bytes 9)

abbrev hosting : Process Listening
hosting = record {
  mem = delivered_mem;
  sent = [];
  threads = 0;
  service = record {
    listeners = panel ∷ [];
    mallocs = some 3000 ∷ some 3040 ∷ [];
    dups = 11 ∷ [];
    writes = [];
  };
}

joining_sizes :
    (joining_txn.data_size ≡ 52)
    × (joining_txn.offsets_size ≡ 8)
    × (joining_txn.buffer ≡ 2064)
    × (joining_txn.offsets ≡ 2048)
unfolding call_txn put_obj put_fd put_string8 put_uint32 bio_alloc bio_alloc_obj note_obj new_parcel
joining_sizes = (refl, refl, refl, refl)

joining_words :
    (load_word joining.mem 2048 ≡ 12)
    × (load_word joining.mem 2052 ≡ 36)
    × (load_word joining.mem 2076 ≡ binder_type_fd)
    × (load_word joining.mem 2100 ≡ binder_type_binder)
unfolding put_obj put_fd put_string8 put_uint32 bio_alloc bio_alloc_obj note_obj new_parcel
    load_word store word_bytes
joining_words = (refl, refl, refl, refl)

abbrev Untouched : ℕ → Type 0
Untouched a = (a < 2084) ⊎ (((2088 ≤ a) × (a < 2100)) ⊎ (((2104 ≤ a) × (a < 2108)) ⊎ (2112 ≤ a)))

delivered_elsewhere : (a : ℕ) → Untouched a → delivered_mem a ≡ joining.mem a
unfolding word_bytes
delivered_elsewhere a h =
    store_frame type_stored 2108 (word_bytes 9) a (omega arith)
    ∙ store_frame fd_stored 2100 (word_bytes binder_type_handle) a (omega arith)
    ∙ store_frame joining.mem 2084 (word_bytes 8) a (omega arith)

delivered_words :
    (load_word delivered_mem 2076 ≡ binder_type_fd)
    × (load_word delivered_mem 2084 ≡ 8)
    × (load_word delivered_mem 2100 ≡ binder_type_handle)
    × (load_word delivered_mem 2108 ≡ 9)
unfolding word_bytes
delivered_words = (
  load_word-agree joining.mem delivered_mem 2076 (λ a l u. delivered_elsewhere a (omega arith))
      ∙ joining_words.2,
  load_word-agree fd_stored delivered_mem 2084 (λ a l u.
        store_frame type_stored 2108 (word_bytes 9) a (omega arith)
        ∙ store_frame fd_stored 2100 (word_bytes binder_type_handle) a (omega arith))
      ∙ load_word-store_self joining.mem 2084 8 (omega arith),
  load_word-agree type_stored delivered_mem 2100
        (λ a l u. store_frame type_stored 2108 (word_bytes 9) a (omega arith))
      ∙ load_word-store_self fd_stored 2100 binder_type_handle (omega arith),
  load_word-store_self type_stored 2108 9 (omega arith),
)

two_objects :
    (j : ℕ)
    → j < joining_txn.offsets_size / 4
    → ((joining_txn.offsets + 4 * j ≡ 2048) × (offset_at joining.mem joining_txn j ≡ 12))
      ⊎ ((joining_txn.offsets + 4 * j ≡ 2052) × (offset_at joining.mem joining_txn j ≡ 36))
two_objects zero l =
    let at : joining_txn.offsets + 4 * 0 ≡ 2048 = omega (arith, joining_sizes) in
    inl (at, ap (λ a. load_word joining.mem a) at ∙ joining_words.0)
two_objects (suc zero) l =
    let at : joining_txn.offsets + 4 * 1 ≡ 2052 = omega (arith, joining_sizes) in
    inr (at, ap (λ a. load_word joining.mem a) at ∙ joining_words.1)
two_objects (suc (suc j)) l = absurd (omega (arith, joining_sizes))

same_word : (m : Mem) (a b : ℕ) → a ≡ b → load_word m a ≡ load_word m b
same_word m a b e = ap (λ q. load_word m q) e

joined_node :
    (o : ℕ)
    → (o ≡ 12) ⊎ (o ≡ 36)
    → load_word joining.mem (joining_txn.buffer + o) ≡ binder_type_binder
    → (load_word delivered_mem (joining_txn.buffer + o) ≡ binder_type_handle)
      × (load_word delivered_mem (joining_txn.buffer + o + 8) ≡ 9)
joined_node o (inl e) type = absurd (
    omega (
      arith,
      type,
      same_word joining.mem (joining_txn.buffer + o) 2076 (omega (arith, joining_sizes, e)),
      joining_words.2,
    ))
joined_node o (inr e) type = (
  same_word delivered_mem _ 2100 (omega (arith, joining_sizes, e)) ∙ delivered_words.2,
  same_word delivered_mem _ 2108 (omega (arith, joining_sizes, e)) ∙ delivered_words.3,
)

joined_fd :
    (o : ℕ)
    → (o ≡ 12) ⊎ (o ≡ 36)
    → load_word joining.mem (joining_txn.buffer + o) ≡ binder_type_fd
    → (load_word delivered_mem (joining_txn.buffer + o) ≡ binder_type_fd)
      × (load_word delivered_mem (joining_txn.buffer + o + 8) ≡ 8)
joined_fd o (inr e) type = absurd (
    omega (
      arith,
      type,
      same_word joining.mem (joining_txn.buffer + o) 2100 (omega (arith, joining_sizes, e)),
      joining_words.3,
    ))
joined_fd o (inl e) type = (
  same_word delivered_mem _ 2076 (omega (arith, joining_sizes, e)) ∙ delivered_words.0,
  same_word delivered_mem _ 2084 (omega (arith, joining_sizes, e)) ∙ delivered_words.1,
)

place_of :
    (j : ℕ)
    → j < joining_txn.offsets_size / 4
    → (offset_at joining.mem joining_txn j ≡ 12) ⊎ (offset_at joining.mem joining_txn j ≡ 36)
place_of j l = omega (arith, two_objects j l)

outside_objects :
    (k : ℕ)
    → ((j : ℕ)
        → j < joining_txn.offsets_size / 4
        → (k < offset_at joining.mem joining_txn j)
          ⊎ (offset_at joining.mem joining_txn j + 16 ≤ k))
    → Untouched (joining_txn.buffer + k)
outside_objects k outside = omega (
  arith,
  joining_sizes,
  outside 0 (omega (arith, joining_sizes)),
  outside 1 (omega (arith, joining_sizes)),
  same_word joining.mem (joining_txn.offsets + 4 * 0) 2048 (omega (arith, joining_sizes)),
  same_word joining.mem (joining_txn.offsets + 4 * 1) 2052 (omega (arith, joining_sizes)),
  joining_words,
)

pub joining-IsDelivered :
    IsDelivered guest_translation joining.mem joining_txn delivered_mem joining_txn
joining-IsDelivered = record {
  same_target = λ z. z;
  same_code = refl;
  same_size = refl;
  same_entries = refl;
  fits = omega (arith, joining_sizes);
  same_offsets = λ j l.
      load_word-agree joining.mem delivered_mem (joining_txn.offsets + 4 * j)
        (λ a lo hi. delivered_elsewhere a (omega (arith, two_objects j l)));
  kept = λ k l outside. delivered_elsewhere (joining_txn.buffer + k) (outside_objects k outside);
  translated = λ j l type. joined_node _ (place_of j l) type;
  descriptors = λ j l type. joined_fd _ (place_of j l) type;
}

on_transact-listener_message_example :
    Returns
      (on_transact joining_txn (bio_init_from_txn joining_txn) (new_parcel 4096) hosting)
      (IsSubscribed 1 11 hosting)
on_transact-listener_message_example =
    on_transact-listener_message guest start 3 1 6 5 77 (104 ∷ 105 ∷ []) guest_translation
      joining_txn (new_parcel 4096) hosting 3000 3040 11 [] [] (omega arith) (omega arith)
      (omega arith) (omega arith) (omega arith) (omega arith) joining-IsDelivered
      (λ e. absurd (omega arith)) (omega arith) (omega arith) refl refl
