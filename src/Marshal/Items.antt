-- ===== src/Marshal/Items.antt =====
-- A message as the sequence of `put` calls that build it: system/binder/Parcel.cpp.
use zeus_os.Base.{
  ℕ, zero, suc, ◌+◌, ◌*◌, ◌^◌, ◌≤◌, ◌≡◌, inl, inr, refl, Bool-cases, Option, none, some, List, [],
  ◌∷◌, ◌++◌, arith, leb, length, length-append,
}
use zeus_os.Memory.{length-word_bytes}
use zeus_os.Parcel.{
  Parcel, write_at, bio_alloc, put_uint32, put_fd, put_obj, put_ref, put_string8, unit_bytes,
  put_string16, widen, put_string16_x,
}
use zeus_os.Marshal.Bounds.{
  InBuffer, Extends, Extends-trans, Extends-refl, append-Extends, write_obj-Extends,
  length-object_bytes,
}

-- One call of a `put` function; `none` is a NULL string.
pub data Item : Type 0 where
  uint32 fd obj ref : ℕ → Item
  string8 string16 string16_x : Option (List ℕ) → Item

unfoldable pub put_item : Item → Parcel → Parcel
put_item (uint32 v) s = put_uint32 v s
put_item (fd v) s = put_fd v s
put_item (obj v) s = put_obj v s
put_item (ref v) s = put_ref v s
put_item (string8 t) s = put_string8 t s
put_item (string16 t) s = put_string16 t s
put_item (string16_x t) s = put_string16_x t s

unfoldable pub put_items : List Item → Parcel → Parcel
put_items [] s = s
put_items (i ∷ is) s = put_items is (put_item i s)

length-unit_bytes : (us : List ℕ) → length (unit_bytes us) ≡ length us * 2
unfolding unit_bytes
length-unit_bytes [] = refl
length-unit_bytes (u ∷ us) = omega (arith, length-unit_bytes us)

length-widen : (cs : List ℕ) → length (widen cs) ≡ (length cs + 1) * 2
unfolding widen
length-widen [] = refl
length-widen (c ∷ cs) = omega (arith, length-widen cs)

module _ {base : ℕ} where
  pub put_uint32-Extends :
      (v : ℕ) (s : Parcel) → InBuffer base s.bio → Extends base s (put_uint32 v s)
  unfolding put_uint32
  put_uint32-Extends v s h =
      append-Extends 4 _ s h (omega arith) (omega (arith, length-word_bytes v))

  -- A length word and then the text.
  text-Extends :
      (len size : ℕ) (bytes : List ℕ) (s : Parcel)
      → InBuffer base s.bio
      → size ≤ 2 ^ 30
      → length bytes ≤ size
      → (let q = put_uint32 len s in Extends base s (write_at q.mem (bio_alloc size q.bio) bytes))
  text-Extends len size bytes s h lt fit =
      let x = put_uint32-Extends len s h in
      Extends-trans x (append-Extends size bytes (put_uint32 len s) x.in_buffer lt fit)

  put_string8-Extends :
      (t : Option (List ℕ)) (s : Parcel) → InBuffer base s.bio → Extends base s (put_string8 t s)
  unfolding put_string8
  put_string8-Extends none s h = put_uint32-Extends _ s h
  put_string8-Extends (some str) s h = elim (Bool-cases (leb (2 ^ 30) (length str))) [
    | inl long ↦ rw long (put_uint32-Extends _ s h)
    | inr short ↦ rw short (
        text-Extends (length str) (length str + 1) (str ++ 0 ∷ []) s h (ground arith)
          (omega (arith, length-append str (0 ∷ []))))
  ]

  put_string16-Extends :
      (t : Option (List ℕ)) (s : Parcel) → InBuffer base s.bio → Extends base s (put_string16 t s)
  unfolding put_string16
  put_string16-Extends none s h = put_uint32-Extends _ s h
  put_string16-Extends (some str) s h = elim (Bool-cases (leb (2 ^ 29) (length str))) [
    | inl long ↦ rw long (put_uint32-Extends _ s h)
    | inr short ↦ rw short (
        text-Extends (length str) ((length str + 1) * 2) _ s h (ground arith)
          (omega (arith, length-append str (0 ∷ []), length-unit_bytes (str ++ 0 ∷ []))))
  ]

  put_string16_x-Extends :
      (t : Option (List ℕ)) (s : Parcel) → InBuffer base s.bio → Extends base s (put_string16_x t s)
  unfolding put_string16_x
  put_string16_x-Extends none s h = put_uint32-Extends _ s h
  put_string16_x-Extends (some str) s h = elim (Bool-cases (leb (2 ^ 29) (length str))) [
    | inl long ↦ rw long (put_uint32-Extends _ s h)
    | inr short ↦ rw short (
        text-Extends (length str) ((length str + 1) * 2) _ s h (ground arith)
          (omega (arith, length-widen str)))
  ]

  pub put_item-Extends :
      (i : Item) (s : Parcel) → InBuffer base s.bio → Extends base s (put_item i s)
  unfolding put_item put_fd put_obj put_ref
  put_item-Extends (uint32 v) s h = put_uint32-Extends v s h
  put_item-Extends (fd v) s h = write_obj-Extends _ v s h
  put_item-Extends (obj v) s h = write_obj-Extends _ v s h
  put_item-Extends (ref zero) s h =
      append-Extends 16 _ s h (omega arith) (omega (arith, length-object_bytes))
  put_item-Extends (ref (suc v)) s h = write_obj-Extends _ (suc v) s h
  put_item-Extends (string8 t) s h = put_string8-Extends t s h
  put_item-Extends (string16 t) s h = put_string16-Extends t s h
  put_item-Extends (string16_x t) s h = put_string16_x-Extends t s h

  -- Whatever is put into a parcel, with strings of any length, the writer stays inside the 1024
  -- bytes at `base`, a raised overflow flag stays raised, and no byte outside the free part of the
  -- parcel changes: neither what was written before nor anything beyond the buffer.
  pub put_items-Extends :
      (is : List Item) (s : Parcel) → InBuffer base s.bio → Extends base s (put_items is s)
  unfolding put_items
  put_items-Extends [] s h = Extends-refl h
  put_items-Extends (i ∷ is) s h =
      let x = put_item-Extends i s h in
      Extends-trans x (put_items-Extends is (put_item i s) x.in_buffer)
