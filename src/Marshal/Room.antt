-- ===== src/Marshal/Room.antt =====
-- When system/binder/Parcel.cpp does not overflow.
use zeus_os.Base.{
  ℕ, zero, suc, ◌+◌, ◌*◌, ◌/◌, ◌^◌, ◌≤◌, ◌<◌, ◌≡◌, inl, inr, false, Option, none, some, List, [],
  ◌∷◌, ◌++◌, arith, leb-false, length, All,
}
use zeus_os.Memory.{word_bytes}
use zeus_os.Parcel.{
  Parcel, write_at, write_obj, bio_alloc, bio_alloc_obj, binder_type_fd, binder_type_handle,
  binder_type_binder, put_uint32, put_fd, put_obj, put_ref, put_string8,
}
use zeus_os.Marshal.Bounds.{InBuffer, bio_alloc-cases, bio_alloc_obj-cases, ObjectRoom}
use zeus_os.Marshal.Items.{
  Item, uint32, fd, obj, ref, string8, string16, string16_x, put_item, put_items, put_item-Extends,
  put_uint32-Extends,
}
use zeus_os.Marshal.Layout.{IsSendable, item_size, sizes}

-- The entries of the offsets array that a message takes.
abbrev pub entries : Item → ℕ
entries (fd v) = 1
entries (obj v) = 1
entries (ref (suc v)) = 1
entries _ = 0

abbrev pub objects : List Item → ℕ
objects [] = 0
objects (i ∷ is) = entries i + objects is

-- Room that is used up exactly.
abbrev pub Takes : ℕ → ℕ → Parcel → Parcel → Type 0
Takes size count s t =
    (t.bio.flags.overflow ≡ false)
    × (t.bio.data_avail + size ≡ s.bio.data_avail)
    × (t.bio.offs_avail + count ≡ s.bio.offs_avail)

module _ {base : ℕ} where
  append_room :
      (size : ℕ) (bytes : List ℕ) (s : Parcel)
      → InBuffer base s.bio
      → size ≤ 2 ^ 30
      → s.bio.flags.overflow ≡ false
      → (size + 3) / 4 * 4 ≤ s.bio.data_avail
      → Takes ((size + 3) / 4 * 4) 0 s (write_at s.mem (bio_alloc size s.bio) bytes)
  append_room size bytes s h lt down room = elim (bio_alloc-cases base size s.bio h lt) [
    | inl (e, short) ↦ absurd (omega arith)
    | inr (e, _) ↦ rw e (down, omega arith, omega arith)
  ]

  pub object-Takes :
      (type handle : ℕ) (s : Parcel)
      → InBuffer base s.bio
      → s.bio.flags.overflow ≡ false
      → 16 ≤ s.bio.data_avail
      → 1 ≤ s.bio.offs_avail
      → Takes 16 1 s (write_obj type handle (bio_alloc_obj s))
  object-Takes type handle s h down room slot = go (bio_alloc_obj s) (bio_alloc_obj-cases s h)
    where
      go : (r : Option ℕ × Parcel) → ObjectRoom base s r → Takes 16 1 s (write_obj type handle r)
      go (none, t) (inl (e, f, y, x)) = absurd (omega arith)
      go (none, t) (inr (e, d, o, f, w, x)) = cc
      go (some q, t) (inl (e, f, y, x)) = absurd (omega arith)
      go (some q, t) (inr (e, d, o, f, w, x)) = (ground arith, omega arith, omega arith)

  string8_room :
      (str : List ℕ) (s : Parcel)
      → InBuffer base s.bio
      → length str < 2 ^ 30
      → s.bio.flags.overflow ≡ false
      → 4 + (length str + 4) / 4 * 4 ≤ s.bio.data_avail
      → Takes (4 + (length str + 4) / 4 * 4) 0 s (put_string8 (some str) s)
  unfolding put_string8 put_uint32
  string8_room str s h lt down room =
      let q = put_uint32 (length str) s in
      let hq : InBuffer base q.bio = (put_uint32-Extends (length str) s h).in_buffer in
      let (f, d, o) =
        append_room 4 (word_bytes (length str)) s h (omega arith) down (omega arith) in
      let (f1, d1, o1) =
        append_room (length str + 1) (str ++ 0 ∷ []) q hq (omega arith) f (omega arith) in
      rw (leb-false (2 ^ 30) (length str) lt) (f1, omega (arith, d, d1), omega (arith, o, o1))

  pub put_item_room :
      (i : Item) (s : Parcel)
      → InBuffer base s.bio
      → IsSendable i
      → s.bio.flags.overflow ≡ false
      → item_size i ≤ s.bio.data_avail
      → entries i ≤ s.bio.offs_avail
      → Takes (item_size i) (entries i) s (put_item i s)
  unfolding put_item put_uint32 put_fd put_obj put_ref
  put_item_room (uint32 v) s h r down room slot =
      append_room 4 (word_bytes v) s h (omega arith) down room
  put_item_room (fd v) s h r down room slot = object-Takes binder_type_fd v s h down room slot
  put_item_room (ref zero) s h r down room slot = absurd (omega arith)
  put_item_room (ref (suc v)) s h r down room slot =
      object-Takes binder_type_handle (suc v) s h down room slot
  put_item_room (string8 (some str)) s h r down room slot = string8_room str s h r down room
  put_item_room (string8 none) s h r down room slot = absurd r
  put_item_room (obj v) s h r down room slot = object-Takes binder_type_binder v s h down room slot
  put_item_room (string16 v) s h r down room slot = absurd r
  put_item_room (string16_x v) s h r down room slot = absurd r

  -- A message that the free data and the free offsets entries can hold uses up exactly its size.
  pub put_items-Takes :
      (is : List Item) (s : Parcel)
      → InBuffer base s.bio
      → All IsSendable is
      → s.bio.flags.overflow ≡ false
      → sizes is ≤ s.bio.data_avail
      → objects is ≤ s.bio.offs_avail
      → Takes (sizes is) (objects is) s (put_items is s)
  unfolding put_items
  put_items-Takes [] s h r down room slot = (down, omega arith, omega arith)
  put_items-Takes (i ∷ is) s h r down room slot =
      let t = put_item i s in
      let (f, d, o) = put_item_room i s h r.0 down (omega arith) (omega arith) in
      let (f1, d1, o1) =
        put_items-Takes is t (put_item-Extends i s h).in_buffer r.1 f (omega (arith, d))
          (omega (arith, o)) in
      (f1, omega (arith, d, d1), omega (arith, o, o1))

  -- It is put without overflow.
  pub put_items_room :
      (is : List Item) (s : Parcel)
      → InBuffer base s.bio
      → All IsSendable is
      → s.bio.flags.overflow ≡ false
      → sizes is ≤ s.bio.data_avail
      → objects is ≤ s.bio.offs_avail
      → (put_items is s).bio.flags.overflow ≡ false
  put_items_room is s h r down room slot = (put_items-Takes is s h r down room slot).0
