-- ===== src/Marshal/Transit.antt =====
-- Any message from the `put` functions of system/binder/Parcel.cpp to its `get` functions, where the
-- driver translates the objects on the way.
use zeus_os.Base.{
  ℕ, ◌+◌, ◌-◌, ◌*◌, ◌/◌, ◌≤◌, ◌<◌, ◌≡◌, refl, subst, ap, ◌∙◌, ◌⊎◌, inl, inr, Bool-cases, ltb, none,
  some, List, [], ◌∷◌, map, arith, length, All,
}
use zeus_os.Memory.{Mem, u32_mod, load_word}
use zeus_os.Parcel.{Txn, bio_init_from_txn, new_parcel}
use zeus_os.Binder.{call_txn}
use zeus_os.Marshal.Bounds.{InBuffer}
use zeus_os.Marshal.Items.{Item, uint32, fd, obj, ref, string8, string16, string16_x, put_items}
use zeus_os.Marshal.Layout.{IsReadable, IsSendable, item_size, sizes, Holds, HoldsAll}
use zeus_os.Marshal.Stored.{put_items-HoldsAll}
use zeus_os.Marshal.Room.{entries, objects}
use zeus_os.Marshal.Delivery.{fresh_parcel, new_parcel-InBuffer}
use zeus_os.Marshal.Requests.{load_word-copy, load-copy}
use zeus_os.Marshal.RoundTrip.{get_items, kind_of, get_items_lem}
use zeus_os.Marshal.Translation.{
  Translation, IsDelivered, offset_at, delivered-ObjectAt, delivered-ObjectAt_fd, put_items_fresh,
}
use zeus_os.Marshal.Entries.{
  NamedAll, entries-cases, object_size, put_items-NamedAll, NamedAll-behind, NamedAll-plain,
}

-- What the receiver reads for an item.
abbrev pub deliver : Translation → Item → Item
deliver h (obj v) = ref (h.handle_for v)
deliver h (fd v) = fd (h.fd_for v)
deliver h i = i

-- An item of the sender's own, not a handle for the object of another process.
abbrev pub IsOwn : Item → Type 0
IsOwn (ref v) = ⊥
IsOwn _ = Unit

module _ (h : Translation) (m : Mem) (t : Txn) (m' : Mem) (t' : Txn)
    (d : IsDelivered h m t m' t') where
  abbrev entry_count : ℕ
  entry_count = t.offsets_size / 4

  abbrev IsBehind : ℕ → ℕ → Type 0
  IsBehind k off = (j : ℕ) → j < k → offset_at m t j + 16 ≤ off

  -- What stands between the objects is copied.
  bytes_kept :
      (k off size : ℕ) (is : List Item)
      → IsBehind k off
      → NamedAll m (t.offsets + 4 * k) (off + size) is
      → k + objects is ≡ entry_count
      → off + size ≤ t.data_size
      → (b : ℕ) → off ≤ b
      → b < off + size
      → m' (t'.buffer + b) ≡ m (t.buffer + b)
  bytes_kept k off size is before q count room b lo hi = d.kept b (omega arith) outside
    where
      outside :
          (j : ℕ) → j < t.offsets_size / 4 → (b < offset_at m t j) ⊎ (offset_at m t j + 16 ≤ b)
      outside j l = elim (Bool-cases (ltb j k)) [
        | inl earlier ↦ inr (omega (arith, before j (ground arith)))
        | inr later ↦
            let back : j ≡ k + (j - k) = ground arith in
            inl (
              omega (
                arith,
                NamedAll-behind m (t.offsets + 4 * k) (off + size) is (j - k) (t.offsets + 4 * j) q
                    (omega (arith, count)) (omega arith),
              ))
      ]

  word_kept :
      (k off size p : ℕ) (is : List Item)
      → IsBehind k off
      → NamedAll m (t.offsets + 4 * k) (off + size) is
      → k + objects is ≡ entry_count
      → off + size ≤ t.data_size
      → off ≤ p
      → p + 4 ≤ off + size
      → load_word m' (t'.buffer + p) ≡ load_word m (t.buffer + p)
  word_kept k off size p is before q count room lo hi =
      load_word-copy m m' (t.buffer + p) (t'.buffer + p) (λ b l.
        ap m' (omega arith)
        ∙ bytes_kept k off size is before q count room (p + b) (omega arith) (omega arith)
        ∙ ap m (omega arith))

  -- One item behind `k` objects.
  deliver-Holds :
      (k off : ℕ) (i : Item) (is : List Item)
      → IsBehind k off
      → NamedAll m (t.offsets + 4 * k) off (i ∷ is)
      → k + objects (i ∷ is) ≡ entry_count
      → off + sizes (i ∷ is) ≤ t.data_size
      → IsSendable i
      → IsOwn i
      → Holds m t.buffer t.offsets entry_count (t.buffer + off) i
      → Holds m' t'.buffer t'.offsets (t'.offsets_size / 4) (t'.buffer + off) (deliver h i)
  deliver-Holds k off (uint32 v) is before q count room r own held =
      word_kept k off 4 off is before (NamedAll-plain m _ _ is q.1) (omega (arith, count))
        (omega arith) (omega arith) (omega arith)
      ∙ held
  deliver-Holds k off (fd v) is before q count room r own held =
      delivered-ObjectAt_fd h m t m' t' d k off v (omega (arith, count)) (q.0 (omega arith)) held.0
        held.1
  deliver-Holds k off (obj v) is before q count room r own held =
      delivered-ObjectAt h m t m' t' d k off v (omega (arith, count)) (q.0 (omega arith)) held.0
        held.1
  deliver-Holds k off (string8 (some str)) is before q count room r own held =
      let size : ℕ = 4 + (length str + 4) / 4 * 4 in
      let named : NamedAll m (t.offsets + 4 * k) (off + size) is = NamedAll-plain m _ _ is q.1 in
      (
        word_kept k off size off is before named (omega (arith, count)) (omega arith) (omega arith)
              (omega arith)
            ∙ held.0,
        load-copy m m' (t.buffer + off + 4) (t'.buffer + off + 4) (length str + 1) (λ b l.
              ap m' (omega arith)
              ∙ bytes_kept k off size is before named (omega (arith, count)) (omega arith)
                  (off + 4 + b) (omega arith) (omega arith)
              ∙ ap m (omega arith))
            ∙ held.1,
      )
  deliver-Holds k off (ref v) is before q count room r own held = absurd own
  deliver-Holds k off (string8 none) is before q count room r own held = absurd r
  deliver-Holds k off (string16 x) is before q count room r own held = absurd r
  deliver-Holds k off (string16_x x) is before q count room r own held = absurd r

  same_item_size : (i : Item) → item_size (deliver h i) ≡ item_size i
  same_item_size (uint32 v) = refl
  same_item_size (fd v) = refl
  same_item_size (obj v) = refl
  same_item_size (ref v) = refl
  same_item_size (string8 none) = refl
  same_item_size (string8 (some str)) = refl
  same_item_size (string16 x) = refl
  same_item_size (string16_x x) = refl

  same_sizes : (is : List Item) → sizes (map (deliver h) is) ≡ sizes is
  same_sizes [] = refl
  same_sizes (i ∷ is) = omega (arith, same_item_size i, same_sizes is)

  next-IsBehind :
      (k off : ℕ) (i : Item)
      → IsBehind k off
      → (1 ≤ entries i → offset_at m t k ≡ off)
      → IsBehind (k + entries i) (off + item_size i)
  next-IsBehind k off i before named j l = elim (Bool-cases (ltb j k)) [
    | inl earlier ↦ omega (arith, before j (ground arith))
    | inr later ↦
        let last : (j ≡ k) × (entries i ≡ 1) = ground (arith, entries-cases i) in
        let here : offset_at m t j ≡ offset_at m t k = ap (λ a. offset_at m t a) last.0 in
        omega (arith, here, named (omega (arith, last)), object_size i (omega (arith, last)))
  ]

  deliver-HoldsAll :
      (k off : ℕ) (is : List Item)
      → IsBehind k off
      → NamedAll m (t.offsets + 4 * k) off is
      → k + objects is ≡ entry_count
      → off + sizes is ≤ t.data_size
      → All IsSendable is
      → All IsOwn is
      → HoldsAll m t.buffer t.offsets entry_count (t.buffer + off) is
      → HoldsAll m' t'.buffer t'.offsets
          (t'.offsets_size / 4)
          (t'.buffer + off)
          (map (deliver h) is)
  deliver-HoldsAll k off [] before q count room r own held = tt
  deliver-HoldsAll k off (i ∷ is) before q count room r own held =
      let k' : ℕ = k + entries i in
      let off' : ℕ = off + item_size i in
      let behind : IsBehind k' off' = next-IsBehind k off i before q.0 in
      (
        deliver-Holds k off i is before q count room r.0 own.0 held.0,
        subst (λ p. HoldsAll m' t'.buffer t'.offsets (t'.offsets_size / 4) p (map (deliver h) is))
            (omega (arith, same_item_size i))
            (deliver-HoldsAll k' off' is behind
              (subst (λ o. NamedAll m o off' is) (omega arith) q.1) (omega (arith, count))
              (omega arith) r.1 own.1
              (subst (λ p. HoldsAll m t.buffer t.offsets entry_count p is) (omega arith) held.1)),
      )

-- Whatever the sender of a message puts into it, words, strings, descriptors and nodes of its own
-- in any order, the receiver reads the same in that order, with a handle in the place of each node
-- and a descriptor of its own in the place of each descriptor. The items take at most 1008 bytes and 4
-- offsets entries, numbers have 32 bits, on both sides, and the driver has handles that are not 0.
pub get_items-delivered :
    (base target code flags : ℕ) (m : Mem) (is : List Item) (h : Translation) (m' : Mem) (t' : Txn)
    → base + 1024 < u32_mod
    → All IsSendable is
    → All IsOwn is
    → All IsReadable (map (deliver h) is)
    → sizes is ≤ 1008
    → objects is ≤ 4
    → (let s = put_items is (fresh_parcel m base) in
        IsDelivered h s.mem (call_txn target code flags s.bio) m' t')
    → get_items (map kind_of (map (deliver h) is)) m' (bio_init_from_txn t') ≡ map (deliver h) is
unfolding call_txn bio_init_from_txn new_parcel
get_items-delivered base target code flags m is h m' t' fits r own readable room slots d =
    let s = fresh_parcel m base in
    let u = put_items is s in
    let t = call_txn target code flags u.bio in
    let hs : InBuffer base s.bio = new_parcel-InBuffer base fits in
    let (x, f, size, offs) = put_items_fresh base m is fits r slots room in
    let b = x.in_buffer in
    let n : ℕ = (u.bio.offs - base) / 4 in
    let count : 0 + objects is ≡ (u.bio.offs - u.bio.offs0) / 4 = omega (arith, b, offs) in
    let (held, _) = put_items-HoldsAll n is s hs r f (omega (arith, offs)) in
    let named = put_items-NamedAll is s hs r refl room slots in
    let whole : HoldsAll m' t'.buffer t'.offsets (t'.offsets_size / 4) (t'.buffer + 0)
        (map (deliver h) is) =
      deliver-HoldsAll h u.mem t m' t' d 0 0 is (λ j l. absurd (omega arith))
        (subst (λ o. NamedAll u.mem o 0 is) (omega (arith, b))
          (subst (λ off. NamedAll u.mem base off is) (omega arith) named))
        count (omega (arith, b, size)) r own
        (rw (b.data0_at, b.offs0_at)
          (subst (λ p. HoldsAll u.mem (base + 16) base n p is) (omega arith) held)) in
    get_items_lem {d = t'.buffer} {o = t'.offsets} {n = t'.offsets_size / 4} (t'.buffer + 0)
      (sizes is) m' (bio_init_from_txn t') (map (deliver h) is)
      (omega arith, omega (arith, d.same_size, b, size), refl, refl, refl)
      (omega (arith, d.fits, d.same_size, b, size)) (omega arith)
      (omega (arith, same_sizes h u.mem t m' t' d is)) readable whole
