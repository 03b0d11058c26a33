-- ===== src/Marshal/Stored.antt =====
-- A whole message that was put without overflow stands in memory as its layout says.
use zeus_os.Base.{
  ℕ, ◌+◌, ◌-◌, ◌*◌, ◌≤◌, ◌≡◌, ◌∙◌, subst, inl, inr, false, Bool-cases, none, some, List, [], ◌∷◌,
  arith, length, All,
}
use zeus_os.Memory.{load, load_word, load-agree, load_word-agree}
use zeus_os.Parcel.{Parcel}
use zeus_os.Marshal.Bounds.{InBuffer, Extends}
use zeus_os.Marshal.Items.{
  Item, uint32, fd, obj, ref, string8, string16, string16_x, put_item, put_items, put_item-Extends,
  put_items-Extends,
}
use zeus_os.Marshal.Layout.{
  IsSendable, item_size, sizes, ObjectAt, Holds, HoldsAll, Placed, PlacedObject, has_offset_at,
  put_item-Puts,
}

module _ {base : ℕ} {t u : Parcel} (x : Extends base t u) where
  keep_data :
      (p : ℕ) → base + 16 ≤ p → p + 4 ≤ t.bio.data_ptr → load_word u.mem p ≡ load_word t.mem p
  keep_data p lo hi =
      load_word-agree t.mem u.mem p (λ a l h. x.settled a (inr (inl (omega arith, omega arith))))

  pub keep_offs : (p : ℕ) → p + 4 ≤ t.bio.offs → load_word u.mem p ≡ load_word t.mem p
  keep_offs p hi = load_word-agree t.mem u.mem p (λ a l h. x.settled a (inl (omega arith)))

  keep_text : (p n : ℕ) → base + 16 ≤ p → p + n ≤ t.bio.data_ptr → load u.mem p n ≡ load t.mem p n
  keep_text p n lo hi =
      load-agree t.mem u.mem p n (λ a l h. x.settled a (inr (inl (omega arith, omega arith))))

  keep_object :
      (n type handle : ℕ) (s : Parcel)
      → InBuffer base s.bio
      → base + 4 * n ≡ u.bio.offs
      → t.bio.data_ptr ≡ s.bio.data_ptr + 16
      → PlacedObject base s t type handle
      → ObjectAt u.mem (base + 16) base n s.bio.data_ptr type handle
  keep_object n type handle s h e d (w, k, o, q) = (
    keep_data s.bio.data_ptr (omega arith) (omega arith) ∙ w,
    keep_data (s.bio.data_ptr + 8) (omega arith) (omega arith) ∙ k,
    has_offset_at u.mem n base (4 - s.bio.offs_avail) _ s.bio.offs (omega arith) (omega arith)
        (keep_offs s.bio.offs (omega arith) ∙ o),
  )

  Placed-Holds :
      (n : ℕ) (s : Parcel) (i : Item)
      → InBuffer base s.bio
      → base + 4 * n ≡ u.bio.offs
      → IsSendable i
      → t.bio.data_ptr ≡ s.bio.data_ptr + item_size i
      → Placed base s t i
      → Holds u.mem (base + 16) base n s.bio.data_ptr i
  Placed-Holds n s (uint32 v) h e r d p = keep_data s.bio.data_ptr (omega arith) (omega arith) ∙ p
  Placed-Holds n s (fd v) h e r d p = keep_object n _ v s h e d p
  Placed-Holds n s (ref v) h e r d p = keep_object n _ v s h e d p
  Placed-Holds n s (string8 (some str)) h e r d p = (
    keep_data s.bio.data_ptr (omega arith) (omega arith) ∙ p.0,
    keep_text (s.bio.data_ptr + 4) (length str + 1) (omega arith) (omega arith) ∙ p.1,
  )
  Placed-Holds n s (string8 none) h e r d p = absurd r
  Placed-Holds n s (obj v) h e r d p = keep_object n _ v s h e d p
  Placed-Holds n s (string16 v) h e r d p = absurd r
  Placed-Holds n s (string16_x v) h e r d p = absurd r

-- A flag that is down at the end was down all along.
pub down_before :
    {base : ℕ} (t u : Parcel)
    → Extends base t u
    → u.bio.flags.overflow ≡ false
    → t.bio.flags.overflow ≡ false
down_before t u x down = elim (Bool-cases t.bio.flags.overflow) [
  | inl up ↦ cc (x.sticky up)
  | inr d ↦ d
]

pub put_items-HoldsAll :
    {base : ℕ} (n : ℕ) (is : List Item) (s : Parcel)
    → InBuffer base s.bio
    → All IsSendable is
    → (put_items is s).bio.flags.overflow ≡ false
    → base + 4 * n ≡ (put_items is s).bio.offs
    → HoldsAll (put_items is s).mem (base + 16) base n s.bio.data_ptr is
      × ((put_items is s).bio.data_ptr ≡ s.bio.data_ptr + sizes is)
unfolding put_items
put_items-HoldsAll n [] s h r down e = (tt, omega arith)
put_items-HoldsAll {base} n (i ∷ is) s h r down e =
    let t = put_item i s in
    let hx : Extends base s t = put_item-Extends i s h in
    let rest : Extends base t (put_items is t) = put_items-Extends is t hx.in_buffer in
    let (f, d, o, p) = put_item-Puts i s h r.0 (down_before t (put_items is t) rest down) in
    let (later, size) = put_items-HoldsAll n is t hx.in_buffer r.1 down e in
    (
      (
        Placed-Holds rest n s i h e r.0 d p,
        subst (λ q. HoldsAll (put_items is t).mem (base + 16) base n q is) d later,
      ),
      omega (arith, size, d),
    )
