-- ===== src/Marshal/Layout.antt =====
-- What a message looks like in memory, and that the `put` functions of system/binder/Parcel.cpp
-- produce it.
use zeus_os.Base.{
  ℕ, zero, suc, ◌+◌, ◌-◌, ◌*◌, ◌/◌, ◌^◌, ◌≤◌, ◌<◌, ◌≡◌, refl, sym, ◌∙◌, inl, inr, true, false,
  Option, none, some, List, [], ◌∷◌, ◌++◌, arith, leb-false, length, length-append,
}
use zeus_os.Memory.{
  Mem, store_frame, u32_mod, load, load_word, store, word_bytes, load_word-agree,
  load_word-store_self, load-store_self,
}
use zeus_os.Parcel.{
  Parcel, write_at, write_obj, bio_alloc, bio_alloc_obj, object_bytes, binder_type_fd,
  binder_type_handle, binder_type_binder, put_uint32, put_fd, put_obj, put_ref, put_string8,
  has_offset,
}
use zeus_os.Marshal.Bounds.{
  InBuffer, bio_alloc-cases, bio_alloc_obj-cases, ObjectRoom, length-object_bytes,
}
use zeus_os.Marshal.Items.{
  Item, uint32, fd, obj, ref, string8, string16, string16_x, put_item, put_uint32-Extends,
}

-- The items whose layout is modelled here: words of 32 bits, strings, and objects with an offsets
-- entry, which a zero handle has not. No `get` reads wide strings.
abbrev pub IsSendable : Item → Type 0
IsSendable (uint32 v) = v < u32_mod
IsSendable (fd v) = v < u32_mod
IsSendable (obj v) = v < u32_mod
IsSendable (ref v) = (0 < v) × (v < u32_mod)
IsSendable (string8 (some str)) = length str < 2 ^ 30
IsSendable _ = ⊥

-- The items that a `get` function gives back as they were put. A node comes back as a handle only
-- through the driver.
abbrev pub IsReadable : Item → Type 0
IsReadable (obj v) = ⊥
IsReadable i = IsSendable i

-- The bytes that an item takes in the data area.
abbrev pub item_size : Item → ℕ
item_size (uint32 v) = 4
item_size (string8 (some str)) = 4 + (length str + 4) / 4 * 4
item_size _ = 16

abbrev pub sizes : List Item → ℕ
sizes [] = 0
sizes (i ∷ is) = item_size i + sizes is

-- An object at `p`, named by one of the `n` offsets from `o` on, relative to the data at `d`.
abbrev pub ObjectAt : Mem → ℕ → ℕ → ℕ → ℕ → ℕ → ℕ → Type 0
ObjectAt m d o n p type handle =
    (load_word m p ≡ type) × (load_word m (p + 8) ≡ handle) × (has_offset m n o (p - d) ≡ true)

abbrev pub Holds : Mem → ℕ → ℕ → ℕ → ℕ → Item → Type 0
Holds m d o n p (uint32 v) = load_word m p ≡ v
Holds m d o n p (fd v) = ObjectAt m d o n p binder_type_fd v
Holds m d o n p (ref v) = ObjectAt m d o n p binder_type_handle v
Holds m d o n p (obj v) = ObjectAt m d o n p binder_type_binder v
Holds m d o n p (string8 (some str)) =
    (load_word m p ≡ length str) × (load m (p + 4) (length str + 1) ≡ str ++ 0 ∷ [])
Holds m d o n p _ = ⊥

abbrev pub HoldsAll : Mem → ℕ → ℕ → ℕ → ℕ → List Item → Type 0
HoldsAll m d o n p [] = Unit
HoldsAll m d o n p (i ∷ is) = Holds m d o n p i × HoldsAll m d o n (p + item_size i) is

-- An entry at any place of the array is found.
pub has_offset_at :
    (m : Mem) (n o k off q : ℕ)
    → k < n
    → q ≡ o + 4 * k
    → load_word m q ≡ off
    → has_offset m n o off ≡ true
unfolding has_offset
has_offset_at m zero o k off q h p e = absurd (omega arith)
has_offset_at m (suc n) o zero off q h p e = ground arith
has_offset_at m (suc n) o (suc k) off q h p e =
    ground (arith, has_offset_at m n (o + 4) k off q (omega arith) (omega arith) e)

-- What a put leaves behind when the flag is still down: the flag was down before, and the item is
-- in memory, for an object without its entry in the offsets array.
abbrev pub PlacedObject : ℕ → Parcel → Parcel → ℕ → ℕ → Type 0
PlacedObject base s t type handle =
    (load_word t.mem s.bio.data_ptr ≡ type)
    × (load_word t.mem (s.bio.data_ptr + 8) ≡ handle)
    × (load_word t.mem s.bio.offs ≡ s.bio.data_ptr - (base + 16))
    × (t.bio.offs ≡ s.bio.offs + 4)

abbrev pub Placed : ℕ → Parcel → Parcel → Item → Type 0
Placed base s t (uint32 v) = load_word t.mem s.bio.data_ptr ≡ v
Placed base s t (string8 (some str)) =
    (load_word t.mem s.bio.data_ptr ≡ length str)
    × (load t.mem (s.bio.data_ptr + 4) (length str + 1) ≡ str ++ 0 ∷ [])
Placed base s t (fd v) = PlacedObject base s t binder_type_fd v
Placed base s t (ref v) = PlacedObject base s t binder_type_handle v
Placed base s t (obj v) = PlacedObject base s t binder_type_binder v
Placed base s t _ = Unit

-- An allocation with its write, when the flag is down after it.
append_placed :
    {base : ℕ} (size : ℕ) (bytes : List ℕ) (s : Parcel)
    → InBuffer base s.bio
    → size ≤ 2 ^ 30
    → (write_at s.mem (bio_alloc size s.bio) bytes).bio.flags.overflow ≡ false
    → (s.bio.flags.overflow ≡ false)
      × ((write_at s.mem (bio_alloc size s.bio) bytes).bio.data_ptr
          ≡ s.bio.data_ptr + (size + 3) / 4 * 4)
      × ((write_at s.mem (bio_alloc size s.bio) bytes).bio.offs ≡ s.bio.offs)
      × ((write_at s.mem (bio_alloc size s.bio) bytes).mem ≡ store s.mem s.bio.data_ptr bytes)
append_placed {base} size bytes s h lt = elim (bio_alloc-cases base size s.bio h lt) [
  | inl (e, short) ↦ rw e (λ down. cc)
  | inr (e, room) ↦ rw e (λ down. (down, refl, refl, refl))
]

-- The words of an object that was stored.
object_type_word :
    (m : Mem) (q type handle : ℕ)
    → type < u32_mod
    → load_word (store m q (object_bytes type handle)) q ≡ type
unfolding load_word store word_bytes
object_type_word m q type handle lt = ground arith

object_handle_word :
    (m : Mem) (q type handle : ℕ)
    → handle < u32_mod
    → load_word (store m q (object_bytes type handle)) (q + 8) ≡ handle
unfolding load_word store word_bytes
object_handle_word m q type handle lh = ground arith

-- The same for an object.
pub object_placed :
    {base : ℕ} (type handle : ℕ) (s : Parcel)
    → InBuffer base s.bio
    → type < u32_mod
    → handle < u32_mod
    → (write_obj type handle (bio_alloc_obj s)).bio.flags.overflow ≡ false
    → (s.bio.flags.overflow ≡ false)
      × ((write_obj type handle (bio_alloc_obj s)).bio.data_ptr ≡ s.bio.data_ptr + 16)
      × PlacedObject base s (write_obj type handle (bio_alloc_obj s)) type handle
object_placed {base} type handle s h lt lh = go (bio_alloc_obj s) (bio_alloc_obj-cases s h)
  where
    go :
        (r : Option ℕ × Parcel)
        → ObjectRoom base s r
        → (write_obj type handle r).bio.flags.overflow ≡ false
        → (s.bio.flags.overflow ≡ false)
          × ((write_obj type handle r).bio.data_ptr ≡ s.bio.data_ptr + 16)
          × PlacedObject base s (write_obj type handle r) type handle
    go (none, t) (inl (e, f, y, x)) down = cc
    go (none, t) (inr (e, d, o, f, w, x)) down = cc
    go (some q, t) (inl (e, f, y, x)) down = cc
    go (some q, t) (inr (e, d, o, f, w, x)) down =
        let at : q ≡ s.bio.data_ptr = ground arith in
        let old = λ (a : ℕ) (l : s.bio.offs ≤ a) (u : a < s.bio.offs + 4).
          store_frame t.mem q (object_bytes type handle) a
            (ground (arith, length-object_bytes type handle)) in
        (
          ground arith,
          d,
          (
            rw (← at) (object_type_word t.mem q type handle lt),
            rw (← at) (object_handle_word t.mem q type handle lh),
            load_word-agree t.mem (store t.mem q (object_bytes type handle)) s.bio.offs old ∙ w,
            o,
          ),
        )

-- What a put leaves when the flag is down after it.
abbrev pub Puts : ℕ → Parcel → Parcel → Item → Type 0
Puts base s t i =
    (s.bio.flags.overflow ≡ false)
    × (t.bio.data_ptr ≡ s.bio.data_ptr + item_size i)
    × (s.bio.offs ≤ t.bio.offs)
    × Placed base s t i

put_uint32-Puts :
    {base : ℕ} (v : ℕ) (s : Parcel)
    → InBuffer base s.bio
    → v < u32_mod
    → (put_uint32 v s).bio.flags.overflow ≡ false
    → (s.bio.flags.overflow ≡ false)
      × ((put_uint32 v s).bio.data_ptr ≡ s.bio.data_ptr + 4)
      × ((put_uint32 v s).bio.offs ≡ s.bio.offs)
      × (load_word (put_uint32 v s).mem s.bio.data_ptr ≡ v)
unfolding put_uint32
put_uint32-Puts v s h lt down =
    let (f, d, o, m) = append_placed 4 (word_bytes v) s h (omega arith) down in
    (f, d, o, rw m (load_word-store_self s.mem s.bio.data_ptr v lt))

put_string8-Puts :
    {base : ℕ} (str : List ℕ) (s : Parcel)
    → InBuffer base s.bio
    → length str < 2 ^ 30
    → (put_string8 (some str) s).bio.flags.overflow ≡ false
    → Puts base s (put_string8 (some str) s) (string8 (some str))
unfolding put_string8
put_string8-Puts {base} str s h lt = rw (leb-false (2 ^ 30) (length str) lt) λ down.
    let q = put_uint32 (length str) s in
    let hq : InBuffer base q.bio = (put_uint32-Extends (length str) s h).in_buffer in
    let (f, d, o, m) = append_placed (length str + 1) (str ++ 0 ∷ []) q hq (omega arith) down in
    let (f1, d1, o1, w) = put_uint32-Puts (length str) s h (omega arith) f in
    (
      f1,
      omega (arith, d, d1),
      omega (arith, o, o1),
      (
        rw m (
            load_word-agree q.mem _ s.bio.data_ptr
              (λ a l u. store_frame q.mem q.bio.data_ptr (str ++ 0 ∷ []) a (omega (arith, d1)))
            ∙ w),
        rw m (
            load-store_self q.mem q.bio.data_ptr _ _ (str ++ 0 ∷ []) (sym d1)
              (omega (arith, length-append str (0 ∷ [])))),
      ),
    )

pub put_item-Puts :
    {base : ℕ} (i : Item) (s : Parcel)
    → InBuffer base s.bio
    → IsSendable i
    → (put_item i s).bio.flags.overflow ≡ false
    → Puts base s (put_item i s) i
unfolding put_item put_fd put_obj put_ref
put_item-Puts (uint32 v) s h r down =
    let (f, d, o, w) = put_uint32-Puts v s h r down in (f, d, omega (arith, o), w)
put_item-Puts (fd v) s h r down =
    let (f, d, w) = object_placed binder_type_fd v s h (omega arith) r down in
    (f, d, omega (arith, w.3), w)
put_item-Puts (obj v) s h r down =
    let (f, d, w) = object_placed binder_type_binder v s h (omega arith) r down in
    (f, d, omega (arith, w.3), w)
put_item-Puts (ref zero) s h r down = absurd (omega arith)
put_item-Puts (ref (suc v)) s h r down =
    let (f, d, w) = object_placed binder_type_handle (suc v) s h (omega arith) r.1 down in
    (f, d, omega (arith, w.3), w)
put_item-Puts (string8 (some str)) s h r down = put_string8-Puts str s h r down
put_item-Puts (string8 none) s h r down = absurd r
put_item-Puts (string16 t) s h r down = absurd r
put_item-Puts (string16_x t) s h r down = absurd r
