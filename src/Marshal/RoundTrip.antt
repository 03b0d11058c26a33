-- ===== src/Marshal/RoundTrip.antt =====
-- What the `get` functions of system/binder/Parcel.cpp read from a message that the `put`
-- functions laid out.
use zeus_os.Base.{
  ℕ, ◌+◌, ◌-◌, ◌*◌, ◌/◌, ◌%◌, ◌≤◌, ◌<◌, ◌≡◌, refl, ap, ◌∙◌, true, Option, none, some, List, [], ◌∷◌,
  ◌++◌, map, arith, length, length-append, All,
}
use zeus_os.Memory.{Mem, u32_mod, load, load_word}
use zeus_os.Parcel.{
  BinderIo, take_bytes, get_uint32, get_string8, get_obj, get_fd, get_ref, handle_of, has_offset,
}
use zeus_os.Marshal.Items.{Item, uint32, fd, obj, ref, string8, string16, string16_x}
use zeus_os.Marshal.Layout.{IsReadable, item_size, sizes, ObjectAt, Holds, HoldsAll}

-- Which `get` function is called.
pub data Kind : Type 0 where
  word descriptor reference text : Kind

abbrev pub kind_of : Item → Kind
kind_of (uint32 v) = word
kind_of (fd v) = descriptor
kind_of (string8 t) = text
kind_of _ = reference

-- The characters in front of the terminator, at the address that getString8 returns.
abbrev pub text_at : Mem → Option ℕ × ℕ × BinderIo → Item × BinderIo
text_at m (none, len, b) = (string8 none, b)
text_at m (some p, len, b) = (string8 (some (load m p len)), b)

unfoldable pub get_item : Kind → Mem → BinderIo → Item × BinderIo
get_item word m b = let (v, b') = get_uint32 m b in (uint32 v, b')
get_item descriptor m b = let (v, b') = get_fd m b in (fd v, b')
get_item reference m b = let (v, b') = get_ref m b in (ref v, b')
get_item text m b = text_at m (get_string8 m b)

unfoldable pub get_items : List Kind → Mem → BinderIo → List Item
get_items [] m b = []
get_items (k ∷ ks) m b = let (i, b') = get_item k m b in i ∷ get_items ks m b'

-- A reader in the middle of its data.
abbrev pub At : ℕ → ℕ → ℕ → ℕ → ℕ → BinderIo → Type 0
At d o n p left b =
    (b.data_ptr ≡ p) × (b.data_avail ≡ left) × (b.data0 ≡ d) × (b.offs ≡ o) × (b.offs_avail ≡ n)

take_bytes_lem :
    {d o n p left : ℕ} (size : ℕ) (b : BinderIo)
    → At d o n p left b
    → p + left < u32_mod
    → size + 3 < u32_mod
    → (size + 3) / 4 * 4 ≤ left
    → (take_bytes size b).0 ≡ some p
      × At d o n (p + (size + 3) / 4 * 4) (left - (size + 3) / 4 * 4) (take_bytes size b).1
unfolding take_bytes
take_bytes_lem size b a h k l = ground arith

-- A read of a text and more begins with the text.
pub load-prefix :
    (m : Mem) (q : ℕ) (str rest : List ℕ)
    → load m q (length (str ++ rest)) ≡ str ++ rest
    → load m q (length str) ≡ str
unfolding load
load-prefix m q [] rest h = refl
load-prefix m q (c ∷ str) rest h = ground (arith, load-prefix m (q + 1) str rest (ground arith))

text_at_lem :
    (m : Mem) (r : Option ℕ × ℕ × BinderIo) (q len : ℕ)
    → r.0 ≡ some q
    → r.1 ≡ len
    → text_at m r ≡ (string8 (some (load m q len)), r.2)
text_at_lem m (none, l, b) q len e f = cc
text_at_lem m (some p, l, b) q len e f = cc

-- One item is read as it was put, and the reader moves behind it.
abbrev Reads : Mem → ℕ → ℕ → ℕ → ℕ → ℕ → Item → Item × BinderIo → Type 0
Reads m d o n p left i r = (r.0 ≡ i) × At d o n (p + item_size i) (left - item_size i) r.1

module _ {d o n p left : ℕ} (m : Mem) (b : BinderIo) (a : At d o n p left b)
    (in_space : p + left < u32_mod) where
  pub get_uint32_lem :
      4 ≤ left
      → ((get_uint32 m b).0 ≡ load_word m p) × At d o n (p + 4) (left - 4) (get_uint32 m b).1
  unfolding get_uint32
  get_uint32_lem room = ground (arith, take_bytes_lem 4 b a in_space (omega arith) (omega arith))

  pub get_obj_lem :
      (type handle : ℕ)
      → d ≤ p
      → 16 ≤ left
      → ObjectAt m d o n p type handle
      → ((handle_of m type (get_obj m b)).0 ≡ handle)
        × At d o n (p + 16) (left - 16) (handle_of m type (get_obj m b)).1
  unfolding get_obj
  get_obj_lem type handle lo room (t, h, e) =
      let (q, a') = take_bytes_lem 16 b a in_space (omega arith) (omega arith) in
      let named : has_offset m b.offs_avail b.offs ((b.data_ptr + u32_mod - b.data0) % u32_mod)
          ≡ true =
        ground arith in
      ground (arith, named, q, a')

  pub get_string8_lem :
      (str : List ℕ)
      → length str + 4 < u32_mod
      → 4 + (length str + 4) / 4 * 4 ≤ left
      → load_word m p ≡ length str
      → ((get_string8 m b).0 ≡ some (p + 4))
        × ((get_string8 m b).1 ≡ length str)
        × At d o n
            (p + (4 + (length str + 4) / 4 * 4))
            (left - (4 + (length str + 4) / 4 * 4))
            (get_string8 m b).2
  unfolding get_string8
  get_string8_lem str short room w =
      let (v, a') = get_uint32_lem (omega arith) in
      let len : ((get_uint32 m b).0 + 1) % u32_mod ≡ length str + 1 = omega (arith, v, w) in
      let (q, a2) =
        take_bytes_lem (length str + 1) (get_uint32 m b).1 a' (omega arith) (omega arith)
          (omega arith) in
      rw len (q, v ∙ w, (omega (arith, a2), omega (arith, a2), a2.2, a2.3, a2.4))

  get_item_lem :
      (i : Item)
      → d ≤ p
      → item_size i ≤ left
      → IsReadable i
      → Holds m d o n p i
      → Reads m d o n p left i (get_item (kind_of i) m b)
  unfolding get_item get_fd get_ref
  get_item_lem (uint32 v) lo room r h = let (e, a') = get_uint32_lem room in (ap uint32 (e ∙ h), a')
  get_item_lem (fd v) lo room r h = let (e, a') = get_obj_lem _ v lo room h in (ap fd e, a')
  get_item_lem (ref v) lo room r h = let (e, a') = get_obj_lem _ v lo room h in (ap ref e, a')
  get_item_lem (string8 (some str)) lo room r h =
      let (e, l, a') = get_string8_lem str (omega arith) room h.0 in
      rw (text_at_lem m (get_string8 m b) (p + 4) (length str) e l) (
        ap (λ t. string8 (some t))
            (load-prefix m (p + 4) str (0 ∷ []) (rw (length-append str (0 ∷ [])) h.1)),
        a',
      )
  get_item_lem (string8 none) lo room r h = absurd r
  get_item_lem (obj v) lo room r h = absurd r
  get_item_lem (string16 v) lo room r h = absurd r
  get_item_lem (string16_x v) lo room r h = absurd r

pub get_items_lem :
    {d o n : ℕ} (p left : ℕ) (m : Mem) (b : BinderIo) (is : List Item)
    → At d o n p left b
    → p + left < u32_mod
    → d ≤ p
    → sizes is ≤ left
    → All IsReadable is
    → HoldsAll m d o n p is
    → get_items (map kind_of is) m b ≡ is
unfolding get_items
get_items_lem p left m b [] a k lo room r h = refl
get_items_lem p left m b (i ∷ is) a k lo room r h =
    let (e, a') = get_item_lem m b a k i lo (omega arith) r.0 h.0 in
    let rest =
      get_items_lem (p + item_size i) (left - item_size i) m (get_item (kind_of i) m b).1 is a'
        (omega arith) (omega arith) (omega arith) r.1 h.1 in
    cc (e, rest)
