-- ===== src/Parcel/Reader.antt =====
-- The `get` functions of system/binder/Parcel.cpp. Each returns what it read and the `BinderIO`
-- after it.
use zeus_os.Base.{
  ℕ, zero, suc, ◌+◌, ◌-◌, ◌*◌, ◌%◌, Bool, true, false, Option, none, some, ltb, ◌==◌, if◌then◌else◌,
}
use zeus_os.Memory.{Mem, u32_mod, load_word}
use zeus_os.Parcel.State.{BinderIo, raise_overflow, align4, advance}
use zeus_os.Parcel.Writer.{binder_type_fd, binder_type_handle}

unfoldable pub take_bytes : ℕ → BinderIo → Option ℕ × BinderIo
take_bytes size b =
    if ltb b.data_avail (align4 size)
    then (none, record (raise_overflow b) { data_avail = 0 })
    else (some b.data_ptr, advance (align4 size) b)

-- `ptr ? *ptr : 0`
abbrev pub word_or_zero : Mem → Option ℕ × BinderIo → ℕ × BinderIo
word_or_zero m (none, b) = (0, b)
word_or_zero m (some p, b) = (load_word m p, b)

unfoldable pub get_uint32 : Mem → BinderIo → ℕ × BinderIo
get_uint32 m b = word_or_zero m (take_bytes 4 b)

-- The result is the address of the text, the length word, and the rest. `(len + 1)` wraps.
unfoldable pub get_string8 : Mem → BinderIo → Option ℕ × ℕ × BinderIo
get_string8 m b =
    let (len, b1) = get_uint32 m b in
    let (text, b2) = take_bytes ((len + 1) % u32_mod) b1 in (text, len, b2)

unfoldable pub get_string16 : Mem → BinderIo → Option ℕ × ℕ × BinderIo
get_string16 m b =
    let (len, b1) = get_uint32 m b in
    let (text, b2) = take_bytes ((len + 1) * 2 % u32_mod) b1 in (text, len, b2)

-- The loop of getObj over the offsets array: `n` entries are left, from `offs` on.
unfoldable pub has_offset : Mem → ℕ → ℕ → ℕ → Bool
has_offset m zero offs off = false
has_offset m (suc n) offs off =
    let rest = has_offset m n (offs + 4) off in if load_word m offs == off then true else rest

-- An object is handed out only where the offsets array names its place.
unfoldable pub get_obj : Mem → BinderIo → Option ℕ × BinderIo
get_obj m b =
    if has_offset m b.offs_avail b.offs ((b.data_ptr + u32_mod - b.data0) % u32_mod)
    then take_bytes 16 b
    else (none, record (raise_overflow b) { data_avail = 0 })

-- getFd and getRef: the third word of an object of the wanted type, or 0.
abbrev pub handle_of : Mem → ℕ → Option ℕ × BinderIo → ℕ × BinderIo
handle_of m type (none, b) = (0, b)
handle_of m type (some obj, b) = ((if load_word m obj == type then load_word m (obj + 8) else 0), b)

unfoldable pub get_fd : Mem → BinderIo → ℕ × BinderIo
get_fd m b = handle_of m binder_type_fd (get_obj m b)

unfoldable pub get_ref : Mem → BinderIo → ℕ × BinderIo
get_ref m b = handle_of m binder_type_handle (get_obj m b)
