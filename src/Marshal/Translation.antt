-- ===== src/Marshal/Translation.antt =====
-- How the driver delivers a transaction: it copies the data and translates the nodes that
-- system/binder/Parcel.cpp put into it.
use zeus_os.Base.{
  ℕ, ◌+◌, ◌-◌, ◌*◌, ◌/◌, ◌≤◌, ◌<◌, ◌≡◌, refl, ap, ◌∙◌, ◌⊎◌, inl, inr, false, List, arith, All,
}
use zeus_os.Memory.{Mem, u32_mod, load_word}
use zeus_os.Parcel.{
  Parcel, Txn, new_parcel, put_obj, binder_type_binder, binder_type_handle, binder_type_fd,
  binder_type_fd,
}
use zeus_os.Binder.{call_txn}
use zeus_os.Marshal.Bounds.{InBuffer, Extends, write_obj-Extends}
use zeus_os.Marshal.Items.{Item, put_items, put_items-Extends}
use zeus_os.Marshal.Layout.{IsSendable, sizes, ObjectAt, PlacedObject, has_offset_at, object_placed}
use zeus_os.Marshal.Room.{objects, put_items-Takes, object-Takes}
use zeus_os.Marshal.Delivery.{fresh_parcel, new_parcel-InBuffer}
use zeus_os.Marshal.Requests.{IsCopy}

-- The place of the object that an entry of the offsets array names.
abbrev pub offset_at : Mem → Txn → ℕ → ℕ
offset_at m t j = load_word m (t.offsets + 4 * j)

-- The handles and the descriptors that the receiver has for the nodes and the descriptors of the
-- sender.
pub record Translation : Type 0 where
  pub handle_for : ℕ → ℕ
  pub fd_for : ℕ → ℕ

-- The message `t` in the memory `m` of the sender comes to the receiver as `t'` in `m'`: with its
-- code and the sizes; the context manager, the target 0, is the node 0 of its process. Every byte
-- outside the named objects is the same, a node becomes a handle, and a descriptor one of the
-- receiver.
pub record IsDelivered (h : Translation) (m : Mem) (t : Txn) (m' : Mem) (t' : Txn) : Type 0 where
  pub same_target : t.target ≡ 0 → t'.target ≡ 0
  pub same_code : t'.code ≡ t.code
  pub same_size : t'.data_size ≡ t.data_size
  pub same_entries : t'.offsets_size ≡ t.offsets_size
  pub fits : t'.buffer + t'.data_size < u32_mod
  pub same_offsets : (j : ℕ) → j < t.offsets_size / 4 → offset_at m' t' j ≡ offset_at m t j
  pub kept :
      (k : ℕ)
      → k < t.data_size
      → ((j : ℕ) → j < t.offsets_size / 4 → (k < offset_at m t j) ⊎ (offset_at m t j + 16 ≤ k))
      → m' (t'.buffer + k) ≡ m (t.buffer + k)
  pub translated :
      (j : ℕ)
      → j < t.offsets_size / 4
      → load_word m (t.buffer + offset_at m t j) ≡ binder_type_binder
      → (load_word m' (t'.buffer + offset_at m t j) ≡ binder_type_handle)
        × (load_word m' (t'.buffer + offset_at m t j + 8)
            ≡ h.handle_for (load_word m (t.buffer + offset_at m t j + 8)))
  pub descriptors :
      (j : ℕ)
      → j < t.offsets_size / 4
      → load_word m (t.buffer + offset_at m t j) ≡ binder_type_fd
      → (load_word m' (t'.buffer + offset_at m t j) ≡ binder_type_fd)
        × (load_word m' (t'.buffer + offset_at m t j + 8)
            ≡ h.fd_for (load_word m (t.buffer + offset_at m t j + 8)))

module _ (h : Translation) (m : Mem) (t : Txn) (m' : Mem) (t' : Txn)
    (d : IsDelivered h m t m' t') where
  -- A message without objects is copied.
  pub delivered-IsCopy : t.offsets_size / 4 ≡ 0 → IsCopy m t m' t'
  delivered-IsCopy z = record {
    same_size = d.same_size;
    fits = d.fits;
    same_bytes = λ k l. d.kept k l (λ j lt. absurd (omega arith));
  }

  -- An object stands where its entry says.
  object_there :
      (j o type w : ℕ)
      → j < t.offsets_size / 4
      → offset_at m t j ≡ o
      → load_word m' (t'.buffer + o) ≡ type
      → load_word m' (t'.buffer + o + 8) ≡ w
      → ObjectAt m' t'.buffer t'.offsets (t'.offsets_size / 4) (t'.buffer + o) type w
  object_there j o type w lt at e k = (
    e,
    k,
    has_offset_at m' (t'.offsets_size / 4) t'.offsets j (t'.buffer + o - t'.buffer)
        (t'.offsets + 4 * j) (rw (d.same_entries) lt) refl (d.same_offsets j lt ∙ at ∙ omega arith),
  )

  -- A node is read as a handle, and a descriptor as a descriptor.
  pub delivered-ObjectAt :
      (j o ptr : ℕ)
      → j < t.offsets_size / 4
      → offset_at m t j ≡ o
      → load_word m (t.buffer + o) ≡ binder_type_binder
      → load_word m (t.buffer + o + 8) ≡ ptr
      → ObjectAt m' t'.buffer t'.offsets
          (t'.offsets_size / 4)
          (t'.buffer + o)
          binder_type_handle
          (h.handle_for ptr)
  delivered-ObjectAt j o ptr lt at type node =
      let (a, b) = (rw at at (d.translated j lt)) type in
      object_there j o binder_type_handle (h.handle_for ptr) lt at a (b ∙ ap h.handle_for node)

  pub delivered-ObjectAt_fd :
      (j o fd : ℕ)
      → j < t.offsets_size / 4
      → offset_at m t j ≡ o
      → load_word m (t.buffer + o) ≡ binder_type_fd
      → load_word m (t.buffer + o + 8) ≡ fd
      → ObjectAt m' t'.buffer t'.offsets
          (t'.offsets_size / 4)
          (t'.buffer + o)
          binder_type_fd
          (h.fd_for fd)
  delivered-ObjectAt_fd j o fd lt at type number =
      let (a, b) = (rw at at (d.descriptors j lt)) type in
      object_there j o binder_type_fd (h.fd_for fd) lt at a (b ∙ ap h.fd_for number)

-- Items in a new parcel.
pub put_items_fresh :
    (base : ℕ) (m : Mem) (is : List Item)
    → base + 1024 < u32_mod
    → All IsSendable is
    → objects is ≤ 4
    → sizes is ≤ 1008
    → (let u = put_items is (fresh_parcel m base) in
        Extends base (fresh_parcel m base) u
        × (u.bio.flags.overflow ≡ false)
        × (u.bio.data_ptr ≡ base + 16 + sizes is)
        × (u.bio.offs ≡ base + 4 * objects is))
unfolding new_parcel
put_items_fresh base m is fits r slots room =
    let s = fresh_parcel m base in
    let hs : InBuffer base s.bio = new_parcel-InBuffer base fits in
    let x : Extends base s (put_items is s) = put_items-Extends is s hs in
    let (f, d, o) = put_items-Takes is s hs r refl room slots in
    (x, f, omega (arith, x.in_buffer, d, room), omega (arith, x.in_buffer, o, slots))

-- An object behind those: the parcel before it and with it.
pub record IsSent (base ptr : ℕ) (u v : Parcel) : Type 0 where
  pub extends : Extends base u v
  pub size : v.bio.data_ptr ≡ u.bio.data_ptr + 16
  pub placed : PlacedObject base u v binder_type_binder ptr

pub put_obj-IsSent :
    (base ptr : ℕ) (u : Parcel)
    → InBuffer base u.bio
    → u.bio.flags.overflow ≡ false
    → ptr < u32_mod
    → u.bio.data_ptr + 16 ≤ base + 1024
    → u.bio.offs + 4 ≤ base + 16
    → IsSent base ptr u (put_obj ptr u)
unfolding put_obj
put_obj-IsSent base ptr u b f lt room slot =
    let down =
      (object-Takes binder_type_binder ptr u b f (omega (arith, b)) (omega (arith, b, slot))).0 in
    let (_, size, p) = object_placed binder_type_binder ptr u b (omega arith) lt down in
    record { extends = write_obj-Extends binder_type_binder ptr u b; size = size; placed = p }

-- Such a message comes as a copy of what stands before the object, and with a handle behind it.
pub delivered-IsSent :
    (base ptr target code flags : ℕ) (h : Translation) (u v : Parcel) (m' : Mem) (t' : Txn)
    → IsSent base ptr u v
    → InBuffer base u.bio
    → u.bio.offs ≡ base
    → IsDelivered h v.mem (call_txn target code flags v.bio) m' t'
    → IsCopy u.mem
        (call_txn target code flags u.bio)
        m'
        (record t' { data_size = u.bio.data_ptr - u.bio.data0 })
      × ObjectAt m' t'.buffer t'.offsets
          (t'.offsets_size / 4)
          (t'.buffer + (u.bio.data_ptr - (base + 16)))
          binder_type_handle
          (h.handle_for ptr)
unfolding call_txn
delivered-IsSent base ptr target code flags h u v m' t' sent a first d =
    let x = sent.extends in
    let b = x.in_buffer in
    let (type, node, entry, more) = sent.placed in
    let o : ℕ = u.bio.data_ptr - (base + 16) in
    let named : (j : ℕ)
        → j < (v.bio.offs - v.bio.offs0) / 4
        → load_word v.mem (v.bio.offs0 + 4 * j) ≡ o =
      λ j l. ap (λ q. load_word v.mem q) (omega (arith, b, more, first)) ∙ entry in
    let there : v.bio.data0 + o ≡ u.bio.data_ptr = omega (arith, a, b) in
    (
      record {
        same_size = refl;
        fits = omega (arith, a, b, d.fits, d.same_size, sent.size);
        same_bytes = λ k l.
            d.kept k (omega (arith, a, b, sent.size))
              (λ j lj. inl (omega (arith, a, b, named j lj)))
            ∙ x.settled (v.bio.data0 + k) (inr (inl (omega (arith, a, b), omega (arith, a, b))))
            ∙ ap u.mem (omega (arith, a, b));
      },
      delivered-ObjectAt h v.mem (call_txn target code flags v.bio) m' t' d 0 o ptr
          (omega (arith, b, more, first)) (named 0 (omega (arith, b, more, first)))
          (ap (λ q. load_word v.mem q) there ∙ type)
          (ap (λ q. load_word v.mem (q + 8)) there ∙ node),
    )
