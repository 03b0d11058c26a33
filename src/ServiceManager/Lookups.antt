-- ===== src/ServiceManager/Lookups.antt =====
-- A registration and a lookup of frameworks/servicemanager/ServiceManager.cpp, where the driver
-- delivers each message to the place where it was.
use zeus_os.Base.{
  ℕ, ◌/◌, ◌+◌, ◌*◌, ◌<◌, ◌⊎◌, inl, ◌≤◌, ◌≡◌, refl, ap, ◌∙◌, some, List, [], ◌∷◌, arith,
}
use zeus_os.Memory.{
  Mem, store, load_word, word_bytes, store_frame, load_word-store_self, load_word-agree,
}
use zeus_os.Parcel.{
  Parcel, Txn, bio_init_from_txn, new_parcel, put_obj, put_uint32, put_string8, bio_alloc,
  bio_alloc_obj, note_obj, binder_type_handle, binder_type_binder,
}
use zeus_os.Binder.{Process, Returns, call_txn}
use zeus_os.Exchange.Examples.{counter, start}
use zeus_os.Marshal.Items.{ref}
use zeus_os.Marshal.Translation.{IsDelivered, Translation, offset_at}
use zeus_os.ServiceManager.{Registry, on_transact}
use zeus_os.ServiceManager.Finding.{reply_read}
use zeus_os.ServiceManager.Clients.{on_transact-service_message}
use zeus_os.Proxies.{Client, service_message}

abbrev nine : Translation
nine = record { handle_for = λ node. 9; fd_for = λ fd. fd }

abbrev hi : List ℕ
hi = 104 ∷ 105 ∷ []

abbrev caller : Client ℕ
caller = record {
  handlers = counter;
  readbuf = 600;
  answers = [];
  msg_buffer = 2048;
  reply_buffer = 16384;
}

-- "hi" with the node 77.
abbrev sent : Parcel
sent = put_obj 77 (service_message (some hi) caller start)

abbrev sent_txn : Txn
sent_txn = call_txn 0 3 0 sent.bio

-- The node becomes the handle 9.
abbrev translated_mem : Mem
translated_mem = store (store sent.mem 2076 (word_bytes binder_type_handle)) 2084 (word_bytes 9)

abbrev asked : Parcel
asked = service_message (some hi) caller start

abbrev asked_txn : Txn
asked_txn = call_txn 0 2 0 asked.bio

abbrev new_registry : Process Registry
new_registry = record {
  mem = translated_mem;
  sent = [];
  threads = 0;
  service = record { svclist = []; mallocs = some 2000 ∷ [] };
}

sent_size : sent_txn.data_size ≡ 28
unfolding call_txn put_obj put_string8 put_uint32 bio_alloc bio_alloc_obj note_obj new_parcel
sent_size = refl

sent_entries : sent_txn.offsets_size ≡ 4
unfolding call_txn put_obj put_string8 put_uint32 bio_alloc bio_alloc_obj note_obj new_parcel
sent_entries = refl

sent_offset : offset_at sent.mem sent_txn 0 ≡ 12
unfolding call_txn put_obj put_string8 put_uint32 bio_alloc bio_alloc_obj note_obj new_parcel
    load_word store word_bytes
sent_offset = refl

sent_buffer : sent_txn.buffer ≡ 2064
unfolding call_txn put_obj put_string8 put_uint32 bio_alloc bio_alloc_obj note_obj new_parcel
sent_buffer = refl

sent_type : load_word sent.mem 2076 ≡ binder_type_binder
unfolding put_obj put_string8 put_uint32 bio_alloc bio_alloc_obj note_obj new_parcel load_word store
    word_bytes
sent_type = refl

asked_sizes : (asked_txn.data_size ≡ 12) × (asked_txn.offsets_size ≡ 0) × (asked_txn.buffer ≡ 2064)
unfolding call_txn put_string8 put_uint32 bio_alloc new_parcel
asked_sizes = (refl, refl, refl)

sent_offsets : sent_txn.offsets ≡ 2048
unfolding call_txn put_obj put_string8 put_uint32 bio_alloc bio_alloc_obj note_obj new_parcel
sent_offsets = refl

-- The driver changes two words.
translated_elsewhere :
    (a : ℕ) → (a < 2076) ⊎ (((2080 ≤ a) × (a < 2084)) ⊎ (2088 ≤ a)) → translated_mem a ≡ sent.mem a
unfolding word_bytes
translated_elsewhere a h =
    store_frame (store sent.mem 2076 (word_bytes binder_type_handle)) 2084 (word_bytes 9) a
      (omega arith)
    ∙ store_frame sent.mem 2076 (word_bytes binder_type_handle) a (omega arith)

translated_type : load_word translated_mem 2076 ≡ binder_type_handle
unfolding word_bytes
translated_type =
    load_word-agree (store sent.mem 2076 (word_bytes binder_type_handle)) translated_mem 2076
      (λ a l u. store_frame _ 2084 (word_bytes 9) a (inl (omega arith)))
    ∙ load_word-store_self sent.mem 2076 binder_type_handle (omega arith)

translated_handle : load_word translated_mem 2084 ≡ 9
translated_handle = load_word-store_self _ 2084 9 (omega arith)

one_entry : (j : ℕ) → j < sent_txn.offsets_size / 4 → j ≡ 0
one_entry j l = omega (arith, sent_entries)

object_at : (j : ℕ) → j < sent_txn.offsets_size / 4 → offset_at sent.mem sent_txn j ≡ 12
object_at j l = ap (λ i. offset_at sent.mem sent_txn i) (one_entry j l) ∙ sent_offset

node_place :
    (j : ℕ) → j < sent_txn.offsets_size / 4 → sent_txn.buffer + offset_at sent.mem sent_txn j ≡ 2076
node_place j l = omega (arith, sent_buffer, object_at j l)

sent-IsDelivered : IsDelivered nine sent.mem sent_txn translated_mem sent_txn
sent-IsDelivered = record {
  same_target = λ z. z;
  same_code = refl;
  same_size = refl;
  same_entries = refl;
  fits = omega (arith, sent_buffer, sent_size);
  same_offsets = λ j l.
      load_word-agree sent.mem translated_mem (sent_txn.offsets + 4 * j)
        (λ a lo hi. translated_elsewhere a (inl (omega (arith, sent_offsets, one_entry j l))));
  kept = λ k l outside. translated_elsewhere (sent_txn.buffer + k) (
      omega
        (arith, sent_buffer, sent_entries, outside 0 (omega (arith, sent_entries)), sent_offset));
  translated = λ j l _. (
    ap (λ q. load_word translated_mem q) (omega (arith, sent_buffer, object_at j l))
        ∙ translated_type,
    ap (λ q. load_word translated_mem q) (omega (arith, sent_buffer, object_at j l))
        ∙ translated_handle,
  );
  descriptors = λ j l e. absurd (
      omega (
        arith,
        e,
        sent_type,
        sent_buffer,
        object_at j l,
        ap (λ q. load_word sent.mem q) (node_place j l),
      ));
}

asked-IsDelivered : IsDelivered nine asked.mem asked_txn asked.mem asked_txn
asked-IsDelivered = record {
  same_target = λ z. z;
  same_code = refl;
  same_size = refl;
  same_entries = refl;
  fits = omega (arith, asked_sizes);
  same_offsets = λ j l. refl;
  kept = λ k l outside. refl;
  translated = λ j l _. absurd (omega (arith, asked_sizes));
  descriptors = λ j l _. absurd (omega (arith, asked_sizes));
}

on_transact-service_message_example :
    Returns (on_transact sent_txn (bio_init_from_txn sent_txn) (new_parcel 4096) new_registry) (λ x.
      (x.status ≡ 0)
      × Returns
          (on_transact asked_txn
            (bio_init_from_txn asked_txn)
            (new_parcel 8192)
            (record (x.process) { mem = asked.mem }))
          (λ y.
            (y.status ≡ 0) × (reply_read y ≡ ref 9 ∷ []) × (y.process.service ≡ x.process.service)))
on_transact-service_message_example =
    on_transact-service_message caller caller start start nine nine hi 77 2000 4096 8192 []
      new_registry sent_txn asked_txn asked.mem (omega arith) (omega arith) (omega arith)
      (omega arith) (omega arith) ((λ e. absurd (omega arith)), ((λ e. absurd (omega arith)), tt))
      (omega arith) (omega arith) (omega arith) sent-IsDelivered asked-IsDelivered (omega arith)
      refl
