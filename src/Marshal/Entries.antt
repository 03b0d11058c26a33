-- ===== src/Marshal/Entries.antt =====
-- The offsets array of a message that the `put` functions of system/binder/Parcel.cpp built: one entry
-- for each object, in their order.
use zeus_os.Base.{
  ℕ, zero, suc, ◌+◌, ◌-◌, ◌*◌, ◌≤◌, ◌<◌, ◌≡◌, refl, subst, ap, ◌∙◌, ◌⊎◌, inl, inr, false, none,
  some, List, [], ◌∷◌, arith, All,
}
use zeus_os.Memory.{Mem, load_word}
use zeus_os.Parcel.{Parcel}
use zeus_os.Marshal.Bounds.{InBuffer, Extends}
use zeus_os.Marshal.Items.{
  Item, uint32, fd, obj, ref, string8, string16, string16_x, put_item, put_items, put_item-Extends,
  put_items-Extends,
}
use zeus_os.Marshal.Layout.{IsSendable, item_size, sizes, Placed, put_item-Puts}
use zeus_os.Marshal.Stored.{keep_offs}
use zeus_os.Marshal.Room.{entries, objects, put_item_room}

-- The entries from `o` on are the places of the objects, the first item being at `off`.
abbrev pub NamedAll : Mem → ℕ → ℕ → List Item → Type 0
NamedAll m o off [] = Unit
NamedAll m o off (i ∷ is) =
    (1 ≤ entries i → load_word m o ≡ off) × NamedAll m (o + 4 * entries i) (off + item_size i) is

pub entries-cases : (i : Item) → (entries i ≡ 0) ⊎ (entries i ≡ 1)
entries-cases (uint32 v) = inl refl
entries-cases (fd v) = inr refl
entries-cases (obj v) = inr refl
entries-cases (ref zero) = inl refl
entries-cases (ref (suc v)) = inr refl
entries-cases (string8 t) = inl refl
entries-cases (string16 t) = inl refl
entries-cases (string16_x t) = inl refl

pub object_size : (i : Item) → 1 ≤ entries i → item_size i ≡ 16
object_size (uint32 v) e = absurd (omega arith)
object_size (fd v) e = refl
object_size (obj v) e = refl
object_size (ref v) e = refl
object_size (string8 none) e = refl
object_size (string8 (some str)) e = absurd (omega arith)
object_size (string16 t) e = refl
object_size (string16_x t) e = refl

Placed-entry :
    (base : ℕ) (s t : Parcel) (i : Item)
    → IsSendable i
    → Placed base s t i
    → 1 ≤ entries i
    → load_word t.mem s.bio.offs ≡ s.bio.data_ptr - (base + 16)
Placed-entry base s t (uint32 v) r p e = absurd (omega arith)
Placed-entry base s t (fd v) r p e = p.2
Placed-entry base s t (obj v) r p e = p.2
Placed-entry base s t (ref zero) r p e = absurd (omega arith)
Placed-entry base s t (ref (suc v)) r p e = p.2
Placed-entry base s t (string8 x) r p e = absurd (omega arith)
Placed-entry base s t (string16 x) r p e = absurd r
Placed-entry base s t (string16_x x) r p e = absurd r

pub put_items-NamedAll :
    {base : ℕ} (is : List Item) (s : Parcel)
    → InBuffer base s.bio
    → All IsSendable is
    → s.bio.flags.overflow ≡ false
    → sizes is ≤ s.bio.data_avail
    → objects is ≤ s.bio.offs_avail
    → NamedAll (put_items is s).mem s.bio.offs (s.bio.data_ptr - (base + 16)) is
unfolding put_items
put_items-NamedAll [] s h r down room slot = tt
put_items-NamedAll {base} (i ∷ is) s h r down room slot =
    let t = put_item i s in
    let hx : Extends base s t = put_item-Extends i s h in
    let rest : Extends base t (put_items is t) = put_items-Extends is t hx.in_buffer in
    let (f, d, o) = put_item_room i s h r.0 down (omega arith) (omega arith) in
    let (_, size, _, p) = put_item-Puts i s h r.0 f in
    let at : t.bio.offs ≡ s.bio.offs + 4 * entries i = omega (arith, h, hx.in_buffer, o) in
    let next : t.bio.data_ptr - (base + 16) ≡ s.bio.data_ptr - (base + 16) + item_size i =
      omega (arith, h, size) in
    (
      λ e. keep_offs rest s.bio.offs (omega (arith, at, e)) ∙ Placed-entry base s t i r.0 p e,
      rw (← at, ← next)
          (put_items-NamedAll is t hx.in_buffer r.1 f (omega (arith, d)) (omega (arith, o))),
    )

-- No entry is in front of the first item.
pub NamedAll-behind :
    (m : Mem) (o off : ℕ) (is : List Item) (j a : ℕ)
    → NamedAll m o off is
    → j < objects is
    → a ≡ o + 4 * j
    → off ≤ load_word m a
NamedAll-behind m o off [] j a q l e = absurd (omega arith)
NamedAll-behind m o off (i ∷ is) j a q l e =
    let tail = λ (j' : ℕ) (l' : j' < objects is) (e' : a ≡ o + 4 * entries i + 4 * j').
      NamedAll-behind m (o + 4 * entries i) (off + item_size i) is j' a q.1 l' e' in
    elim (entries-cases i) [
      | inl plain ↦ omega (arith, tail j (omega (arith, plain)) (omega (arith, plain)))
      | inr object ↦ go j l e object tail
    ]
  where
    go :
        (j : ℕ)
        → j < objects (i ∷ is)
        → a ≡ o + 4 * j
        → entries i ≡ 1
        → ((j' : ℕ)
            → j' < objects is
            → a ≡ o + 4 * entries i + 4 * j'
            → off + item_size i ≤ load_word m a)
        → off ≤ load_word m a
    go zero l e object tail =
        let here : load_word m a ≡ load_word m o = ap (λ b. load_word m b) (omega arith) in
        omega (arith, here, q.0 (omega (arith, object)))
    go (suc j) l e object tail =
        omega (arith, tail j (omega (arith, object)) (omega (arith, object)))

pub NamedAll-plain :
    (m : Mem) (o off : ℕ) (is : List Item) → NamedAll m (o + 4 * 0) off is → NamedAll m o off is
NamedAll-plain m o off is q = subst (λ a. NamedAll m a off is) (omega arith) q
