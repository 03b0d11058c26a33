-- ===== src/Marshal/Bounds.antt =====
-- The `put` functions of system/binder/Parcel.cpp stay inside the 1024 bytes of their parcel and
-- leave alone what was written before.
use zeus_os.Base.{
  ℕ, ◌+◌, ◌-◌, ◌*◌, ◌/◌, ◌%◌, ◌^◌, ◌≤◌, ◌<◌, ◌≡◌, refl, ◌∙◌, ◌⊎◌, inl, inr, true, Option, none,
  some, List, arith, ◌==◌, Bool-cases, length,
}
use zeus_os.Memory.{
  u32_mod, load_word, store, load_word-store_self, word_bytes, store_frame, length-word_bytes,
}
use zeus_os.Parcel.{
  BinderIo, Parcel, bio_alloc, write_at, note_obj, bio_alloc_obj, write_obj, raise_overflow,
  object_bytes,
}

-- The writer of a parcel allocated at `base`: 16 bytes of offsets, then 1008 of data.
pub record InBuffer (base : ℕ) (b : BinderIo) : Type 0 where
  pub data0_at : b.data0 ≡ base + 16
  pub offs0_at : b.offs0 ≡ base
  pub data_lo : base + 16 ≤ b.data_ptr
  pub data_hi : b.data_ptr + b.data_avail ≡ base + 1024
  pub offs_lo : base ≤ b.offs
  pub offs_hi : b.offs + 4 * b.offs_avail ≡ base + 16
  pub fits : base + 1024 < u32_mod

-- The addresses that no later `put` may change: outside the buffer, or written already.
abbrev pub Settled : ℕ → BinderIo → ℕ → Type 0
Settled base b a = (a < b.offs) ⊎ (((base + 16 ≤ a) × (a < b.data_ptr)) ⊎ (base + 1024 ≤ a))

-- `t` is `s` after some writes.
pub record Extends (base : ℕ) (s t : Parcel) : Type 0 where
  pub in_buffer : InBuffer base t.bio
  pub data_grows : s.bio.data_ptr ≤ t.bio.data_ptr
  pub offs_grows : s.bio.offs ≤ t.bio.offs
  pub sticky : s.bio.flags.overflow ≡ true → t.bio.flags.overflow ≡ true
  pub settled : (a : ℕ) → Settled base s.bio a → t.mem a ≡ s.mem a

pub Extends-refl : {base : ℕ} {s : Parcel} → InBuffer base s.bio → Extends base s s
Extends-refl h = record {
  in_buffer = h;
  data_grows = omega arith;
  offs_grows = omega arith;
  sticky = λ e. e;
  settled = λ a _. refl;
}

pub Extends-trans :
    {base : ℕ} {s t u : Parcel} → Extends base s t → Extends base t u → Extends base s u
Extends-trans {s = s} f g = record {
  in_buffer = g.in_buffer;
  data_grows = omega arith;
  offs_grows = omega arith;
  sticky = λ e. g.sticky (f.sticky e);
  settled = λ a h. g.settled a (omega arith) ∙ f.settled a h;
}

-- An allocation fails and raises the flag, or advances by the rounded size.
pub bio_alloc-cases :
    (base size : ℕ) (b : BinderIo)
    → InBuffer base b
    → size ≤ 2 ^ 30
    → ((bio_alloc size b ≡ (none, raise_overflow b)) × (b.data_avail < (size + 3) / 4 * 4))
      ⊎ ((bio_alloc size b ≡ (
        some b.data_ptr,
        record b {
          data_ptr = b.data_ptr + (size + 3) / 4 * 4;
          data_avail = b.data_avail - (size + 3) / 4 * 4;
        },
      ))
          × ((size + 3) / 4 * 4 ≤ b.data_avail))
unfolding bio_alloc
bio_alloc-cases base size b h lt = ground arith

-- Room is taken and at most as many bytes are written.
pub append-Extends :
    {base : ℕ} (size : ℕ) (bytes : List ℕ) (s : Parcel)
    → InBuffer base s.bio
    → size ≤ 2 ^ 30
    → length bytes ≤ size
    → Extends base s (write_at s.mem (bio_alloc size s.bio) bytes)
append-Extends {base} size bytes s h lt len = elim (bio_alloc-cases base size s.bio h lt) [
  | inl (e, short) ↦ rw e (record {
    in_buffer = omega arith;
    data_grows = omega arith;
    offs_grows = omega arith;
    sticky = λ _. refl;
    settled = λ a _. refl;
  })
  | inr (e, room) ↦ rw e (record {
    in_buffer = omega arith;
    data_grows = omega arith;
    offs_grows = omega arith;
    sticky = λ o. o;
    settled = λ a o. store_frame s.mem s.bio.data_ptr bytes a (omega arith);
  })
]

pub length-object_bytes : (type handle : ℕ) → length (object_bytes type handle) ≡ 16
unfolding word_bytes
length-object_bytes type handle = refl

-- An object is taken: the offsets entry is written.
abbrev pub ObjectRoom : ℕ → Parcel → Option ℕ × Parcel → Type 0
ObjectRoom base s r =
    ((r.0 ≡ none)
      × (r.1.bio.flags.overflow ≡ true)
      × ((s.bio.data_avail < 16) ⊎ (s.bio.offs_avail ≡ 0))
      × Extends base s r.1)
    ⊎ ((r.0 ≡ some s.bio.data_ptr)
        × (r.1.bio.data_ptr ≡ s.bio.data_ptr + 16)
        × (r.1.bio.offs ≡ s.bio.offs + 4)
        × (r.1.bio.flags ≡ s.bio.flags)
        × (load_word r.1.mem s.bio.offs ≡ s.bio.data_ptr - (base + 16))
        × Extends base s r.1)

-- The entry is the distance of the object from the start of the data.
entry :
    {base : ℕ} (s : Parcel)
    → InBuffer base s.bio
    → load_word
        (store s.mem s.bio.offs (word_bytes ((s.bio.data_ptr + u32_mod - s.bio.data0) % u32_mod)))
        s.bio.offs
      ≡ s.bio.data_ptr - (base + 16)
entry {base} s h = load_word-store_self s.mem s.bio.offs _ (omega arith) ∙ omega arith

pub bio_alloc_obj-cases :
    {base : ℕ} (s : Parcel) → InBuffer base s.bio → ObjectRoom base s (bio_alloc_obj s)
unfolding bio_alloc_obj note_obj
bio_alloc_obj-cases {base} s h = elim (bio_alloc-cases base 16 s.bio h (omega arith)) [
  | inl (e, short) ↦ rw e (
      inl (
        refl,
        refl,
        inl (omega arith),
        record {
          in_buffer = omega arith;
          data_grows = omega arith;
          offs_grows = omega arith;
          sticky = λ _. refl;
          settled = λ a _. refl;
        },
      ))
  | inr (e, room) ↦ rw e (elim (Bool-cases (s.bio.offs_avail == 0)) [
    | inl full ↦ rw full (
        inl (
          refl,
          refl,
          inr (ground arith),
          record {
            in_buffer = omega arith;
            data_grows = omega arith;
            offs_grows = omega arith;
            sticky = λ _. refl;
            settled = λ a _. refl;
          },
        ))
    | inr left ↦ rw left (
        inr (
          refl,
          refl,
          refl,
          refl,
          entry s h,
          record {
            in_buffer = ground arith;
            data_grows = omega arith;
            offs_grows = omega arith;
            sticky = λ o. o;
            settled = λ a o. store_frame s.mem s.bio.offs (word_bytes _) a (
                ground
                  (arith, length-word_bytes ((s.bio.data_ptr + u32_mod - s.bio.data0) % u32_mod)));
          },
        ))
  ])
]

pub write_obj-Extends :
    {base : ℕ} (type handle : ℕ) (s : Parcel)
    → InBuffer base s.bio
    → Extends base s (write_obj type handle (bio_alloc_obj s))
write_obj-Extends {base} type handle s h = go (bio_alloc_obj s) (bio_alloc_obj-cases s h)
  where
    go : (r : Option ℕ × Parcel) → ObjectRoom base s r → Extends base s (write_obj type handle r)
    go (none, t) (inl (e, f, y, x)) = x
    go (none, t) (inr (e, d, o, f, w, x)) = cc
    go (some obj, t) (inl (e, f, y, x)) = cc
    go (some obj, t) (inr (e, d, o, f, w, x)) = record {
      in_buffer = x.in_buffer;
      data_grows = x.data_grows;
      offs_grows = x.offs_grows;
      sticky = x.sticky;
      settled = λ a n.
          store_frame t.mem obj (object_bytes type handle) a
            (ground (arith, length-object_bytes type handle))
          ∙ x.settled a n;
    }
