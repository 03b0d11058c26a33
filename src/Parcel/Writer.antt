-- ===== src/Parcel/Writer.antt =====
-- The allocator and the `put` functions of system/binder/Parcel.cpp.
use zeus_os.Base.{
  ℕ, zero, suc, ◌+◌, ◌-◌, ◌*◌, ◌/◌, ◌%◌, ◌^◌, Option, none, some, List, [], ◌∷◌, ◌++◌, leb, ◌==◌,
  if◌then◌else◌, length,
}
use zeus_os.Memory.{Mem, u32_mod, int_lt, store, word_bytes}
use zeus_os.Parcel.State.{BinderIo, Parcel, raise_overflow, align4, advance}

-- The comparison is signed; the result is the address, or `none` for NULL.
unfoldable pub bio_alloc : ℕ → BinderIo → Option ℕ × BinderIo
bio_alloc size b =
    if int_lt b.data_avail (align4 size)
    then (none, raise_overflow b)
    else (some b.data_ptr, advance (align4 size) b)

-- What the `put` functions do with an allocation: write to it unless it is NULL.
abbrev pub write_at : Mem → Option ℕ × BinderIo → List ℕ → Parcel
write_at m (none, b) bytes = record { mem = m; bio = b }
write_at m (some p, b) bytes = record { mem = store m p bytes; bio = b }

-- The second half of bioAllocObj: the offset of the object goes into the offsets array.
unfoldable pub note_obj : Mem → Option ℕ × BinderIo → Option ℕ × Parcel
note_obj m (none, b) = (none, record { mem = m; bio = raise_overflow b })
note_obj m (some obj, b) =
    if b.offs_avail == 0 then (none, record { mem = m; bio = raise_overflow b }) else (
      some obj,
      record {
        mem = store m b.offs (word_bytes ((obj + u32_mod - b.data0) % u32_mod));
        bio = record b { offs_avail = b.offs_avail - 1; offs = b.offs + 4 };
      },
    )

-- sizeof(struct flat_binder_object) is 16.
unfoldable pub bio_alloc_obj : Parcel → Option ℕ × Parcel
bio_alloc_obj p = note_obj p.mem (bio_alloc 16 p.bio)

-- B_PACK_CHARS('f', 'd', '*', 0x85) and so on.
abbrev pub binder_type_fd : ℕ
binder_type_fd = 0x66642a85

abbrev pub binder_type_binder : ℕ
binder_type_binder = 0x73622a85

abbrev pub binder_type_handle : ℕ
binder_type_handle = 0x73682a85

-- The four words of a flat_binder_object: type, flags 0x7f | FLAT_BINDER_FLAG_ACCEPTS_FDS, the
-- handle or pointer, and the cookie.
abbrev pub object_bytes : ℕ → ℕ → List ℕ
object_bytes type handle = word_bytes type ++ word_bytes 0x17f ++ word_bytes handle ++ word_bytes 0

abbrev pub write_obj : ℕ → ℕ → Option ℕ × Parcel → Parcel
write_obj type handle (none, p) = p
write_obj type handle (some obj, p) = record p {
  mem = store (p.mem) obj (object_bytes type handle);
}

unfoldable pub put_uint32 : ℕ → Parcel → Parcel
put_uint32 val p = write_at p.mem (bio_alloc 4 p.bio) (word_bytes val)

unfoldable pub put_fd : ℕ → Parcel → Parcel
put_fd fd p = write_obj binder_type_fd fd (bio_alloc_obj p)

unfoldable pub put_obj : ℕ → Parcel → Parcel
put_obj ptr p = write_obj binder_type_binder ptr (bio_alloc_obj p)

-- A zero handle takes room in the data and no entry in the offsets array.
unfoldable pub put_ref : ℕ → Parcel → Parcel
put_ref zero p = write_at p.mem (bio_alloc 16 p.bio) (object_bytes binder_type_handle 0)
put_ref (suc h) p = write_obj binder_type_handle (suc h) (bio_alloc_obj p)

-- A C string is the bytes before its terminator; `none` is NULL. MAX_BIO_SIZE is 2 ^ 30.
unfoldable pub put_string8 : Option (List ℕ) → Parcel → Parcel
unfolding put_uint32
put_string8 none p = put_uint32 0xffffffff p
put_string8 (some str) p =
    let len = length str in
    if leb (2 ^ 30) len
    then put_uint32 0xffffffff p
    else (let q = put_uint32 len p in write_at q.mem (bio_alloc (len + 1) q.bio) (str ++ 0 ∷ []))

-- The bytes of a run of 16-bit units.
unfoldable pub unit_bytes : List ℕ → List ℕ
unit_bytes [] = []
unit_bytes (u ∷ us) = u % 256 ∷ u / 256 % 256 ∷ unit_bytes us

-- A string of 16-bit units before the zero unit. The guard is on MAX_BIO_SIZE / 2.
unfoldable pub put_string16 : Option (List ℕ) → Parcel → Parcel
unfolding put_uint32
put_string16 none p = put_uint32 0xffffffff p
put_string16 (some str) p =
    let len = length str in
    if leb (2 ^ 29) len
    then put_uint32 0xffffffff p
    else (let q = put_uint32 len p in
        write_at q.mem (bio_alloc ((len + 1) * 2) q.bio) (unit_bytes (str ++ 0 ∷ [])))

-- `while (*str) *ptr++ = *str++;` widens each byte to a unit.
unfoldable pub widen : List ℕ → List ℕ
widen [] = 0 ∷ 0 ∷ []
widen (c ∷ str) = c ∷ 0 ∷ widen str

-- putString16_X takes its argument for a string of bytes.
unfoldable pub put_string16_x : Option (List ℕ) → Parcel → Parcel
unfolding put_uint32
put_string16_x none p = put_uint32 0xffffffff p
put_string16_x (some str) p =
    let len = length str in
    if leb (2 ^ 29) len
    then put_uint32 0xffffffff p
    else (let q = put_uint32 len p in write_at q.mem (bio_alloc ((len + 1) * 2) q.bio) (widen str))
