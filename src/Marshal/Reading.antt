-- ===== src/Marshal/Reading.antt =====
-- Where the `get` functions of system/binder/Parcel.cpp read, on a message of any sender.
use zeus_os.Base.{
  ℕ, ◌+◌, ◌-◌, ◌%◌, ◌^◌, ◌<◌, ◌≤◌, ◌≡◌, refl, subst, ltb-false, inl, inr, false, Bool-cases, Option,
  none, some, arith, ltb,
}
use zeus_os.Memory.{Mem, u32_mod}
use zeus_os.Parcel.{
  BinderIo, align4, take_bytes, word_or_zero, get_uint32, get_string8, get_obj, has_offset,
}

-- The unread part of the message lies in a range of addresses.
abbrev pub IsWithin : ℕ → ℕ → BinderIo → Type 0
IsWithin lo hi r = (lo ≤ r.data_ptr) × (r.data_ptr + r.data_avail ≤ hi) × (hi < u32_mod)

-- `n` bytes from an address on lie in the range; NULL has none.
abbrev pub SpansIn : ℕ → ℕ → ℕ → Option ℕ → Type 0
SpansIn lo hi n none = Unit
SpansIn lo hi n (some p) = (lo ≤ p) × (p + n ≤ hi)

-- A size that rounds up to a multiple of 4 without a wrap.
abbrev pub max_size : ℕ
max_size = 2 ^ 32 - 4

align4_lem : (n : ℕ) → n ≤ max_size → n ≤ align4 n
align4_lem n l = omega arith

not_less : (a b : ℕ) → ltb a b ≡ false → b ≤ a
not_less a b e = ground arith

-- The pointer and the counter move without a wrap.
advanced :
    (p a s hi : ℕ)
    → s ≤ a
    → p + a ≤ hi
    → hi < u32_mod
    → ((p + s) % u32_mod ≡ p + s) × ((a + u32_mod - s) % u32_mod + s ≡ a)
advanced p a s hi l u w = omega arith

take_bytes-IsWithin :
    (lo hi n : ℕ) (r : BinderIo)
    → n ≤ max_size
    → IsWithin lo hi r
    → SpansIn lo hi n (take_bytes n r).0 × IsWithin lo hi (take_bytes n r).1
unfolding take_bytes
take_bytes-IsWithin lo hi n r l w = elim (Bool-cases (ltb r.data_avail (align4 n))) [
  | inl y ↦ rw y (tt, (w.0, omega arith, w.2))
  | inr z ↦
      let fits = not_less r.data_avail (align4 n) z in
      let moved = advanced r.data_ptr r.data_avail (align4 n) hi fits w.1 w.2 in
      rw z (
        (w.0, omega (arith, align4_lem n l, fits, w.1)),
        (omega (arith, moved.0, w.0), omega (arith, moved.0, moved.1, w.1), w.2),
      )
]

-- The word of a string.
abbrev pub text_length : Mem → BinderIo → ℕ
text_length m r = (get_uint32 m r).0

get_uint32-IsWithin :
    (lo hi : ℕ) (m : Mem) (r : BinderIo) → IsWithin lo hi r → IsWithin lo hi (get_uint32 m r).1
unfolding get_uint32
get_uint32-IsWithin lo hi m r w =
    taken (take_bytes 4 r) (take_bytes-IsWithin lo hi 4 r (omega arith) w).1
  where
    taken : (o : Option ℕ × BinderIo) → IsWithin lo hi o.1 → IsWithin lo hi (word_or_zero m o).1
    taken (none, b) h = h
    taken (some p, b) h = h

-- getString8 and getObj hand out no pointer to bytes outside of the message that is being read, and
-- leave an unread part that lies in it: the text of a string, with its terminator, and the 16 bytes
-- of an object are in the message, whatever its sender put there, when the length of the string is
-- below 2 ^ 32 - 4.
pub get_string8-IsWithin :
    (lo hi : ℕ) (m : Mem) (r : BinderIo)
    → IsWithin lo hi r
    → text_length m r < max_size
    → (SpansIn lo hi (text_length m r + 1) (get_string8 m r).0 × IsWithin lo hi (get_string8 m r).2)
      × (SpansIn lo hi 16 (get_obj m r).0 × IsWithin lo hi (get_obj m r).1)
unfolding get_string8 get_obj
get_string8-IsWithin lo hi m r w l = (
  subst
      (λ n.
        SpansIn lo hi n (take_bytes ((text_length m r + 1) % u32_mod) (get_uint32 m r).1).0
        × IsWithin lo hi (take_bytes ((text_length m r + 1) % u32_mod) (get_uint32 m r).1).1)
      (omega arith)
      (take_bytes-IsWithin lo hi ((text_length m r + 1) % u32_mod) (get_uint32 m r).1 (omega arith)
        (get_uint32-IsWithin lo hi m r w)),
  elim (Bool-cases
      (has_offset m r.offs_avail r.offs ((r.data_ptr + u32_mod - r.data0) % u32_mod))) [
        | inl y ↦ rw y (take_bytes-IsWithin lo hi 16 r (omega arith) w)
        | inr n ↦ rw n (tt, (w.0, omega (arith, w.1), w.2))
      ],
)

-- A string whose length word is one of the last four numbers is not read as NULL, though putString8
-- sends NULL as the last of them: the size wraps, and what is handed out is the address of the
-- rest of the message, of which no byte is taken.
pub get_string8_wraps :
    (lo hi : ℕ) (m : Mem) (r : BinderIo)
    → IsWithin lo hi r
    → max_size ≤ text_length m r
    → text_length m r < u32_mod
    → let rest = (get_uint32 m r).1 in
      ((get_string8 m r).0 ≡ some rest.data_ptr)
      × ((get_string8 m r).2.data_ptr ≡ rest.data_ptr)
      × ((get_string8 m r).2.data_avail ≡ rest.data_avail)
unfolding get_string8 take_bytes
get_string8_wraps lo hi m r w l u =
    nothing (get_uint32 m r).1 ((text_length m r + 1) % u32_mod) (get_uint32-IsWithin lo hi m r w)
      (omega arith)
  where
    nothing :
        (b : BinderIo) (n : ℕ)
        → IsWithin lo hi b
        → align4 n ≡ 0
        → ((take_bytes n b).0 ≡ some b.data_ptr)
          × ((take_bytes n b).1.data_ptr ≡ b.data_ptr)
          × ((take_bytes n b).1.data_avail ≡ b.data_avail)
    nothing b n h z =
        rw (take_bytes, z, ltb-false b.data_avail 0 (omega arith))
          (refl, omega (arith, h.1, h.2), omega (arith, h.1, h.2))
