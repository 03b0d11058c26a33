-- ===== src/Marshal/Delivery.antt =====
-- A message from the `put` functions of system/binder/Parcel.cpp to its `get` functions, by way of
-- the transaction that binderCall of system/binder/Binder.cpp makes of it.
use zeus_os.Base.{
  ℕ, ◌+◌, ◌-◌, ◌/◌, ◌≤◌, ◌<◌, ◌≡◌, refl, false, none, some, List, [], ◌∷◌, map, arith, All,
}
use zeus_os.Memory.{Mem, u32_mod}
use zeus_os.Parcel.{Parcel, new_parcel, bio_init_from_txn}
use zeus_os.Binder.{call_txn}
use zeus_os.Marshal.Bounds.{InBuffer, Extends}
use zeus_os.Marshal.Items.{
  Item, uint32, fd, obj, ref, string8, string16, string16_x, put_items, put_items-Extends,
}
use zeus_os.Marshal.Layout.{IsReadable, IsSendable, sizes}
use zeus_os.Marshal.Stored.{put_items-HoldsAll}
use zeus_os.Marshal.Room.{objects, put_items_room}
use zeus_os.Marshal.RoundTrip.{get_items, kind_of, get_items_lem}

-- A new parcel in a memory.
abbrev pub fresh_parcel : Mem → ℕ → Parcel
fresh_parcel m base = record { mem = m; bio = new_parcel base }

pub new_parcel-InBuffer : (base : ℕ) → base + 1024 < u32_mod → InBuffer base (new_parcel base)
unfolding new_parcel
new_parcel-InBuffer base h = omega arith

pub readable-IsSendable : (is : List Item) → All IsReadable is → All IsSendable is
readable-IsSendable [] r = tt
readable-IsSendable (uint32 v ∷ is) r = (r.0, readable-IsSendable is r.1)
readable-IsSendable (fd v ∷ is) r = (r.0, readable-IsSendable is r.1)
readable-IsSendable (obj v ∷ is) r = absurd r.0
readable-IsSendable (ref v ∷ is) r = (r.0, readable-IsSendable is r.1)
readable-IsSendable (string8 (some str) ∷ is) r = (r.0, readable-IsSendable is r.1)
readable-IsSendable (string8 none ∷ is) r = absurd r.0
readable-IsSendable (string16 t ∷ is) r = absurd r.0
readable-IsSendable (string16_x t ∷ is) r = absurd r.0

-- Words, descriptors, nonzero handles and strings that take at most 1008 bytes and 4 offsets
-- entries are read back, each by its own `get` function, exactly as they were put, by a reader that
-- is set up from the transaction of the message.
pub get_items-put_items :
    (base target code flags : ℕ) (m : Mem) (is : List Item)
    → base + 1024 < u32_mod
    → All IsReadable is
    → sizes is ≤ 1008
    → objects is ≤ 4
    → (let t = put_items is (fresh_parcel m base) in
        get_items (map kind_of is) t.mem (bio_init_from_txn (call_txn target code flags t.bio))
        ≡ is)
unfolding new_parcel bio_init_from_txn call_txn
get_items-put_items base target code flags m is h r room slots =
    let s = fresh_parcel m base in
    let t = put_items is s in
    let hs : InBuffer base s.bio = new_parcel-InBuffer base h in
    let x : Extends base s t = put_items-Extends is s hs in
    let sendable = readable-IsSendable is r in
    let down : t.bio.flags.overflow ≡ false = put_items_room is s hs sendable refl room slots in
    let n : ℕ = (t.bio.offs - base) / 4 in
    let (held, size) = put_items-HoldsAll n is s hs sendable down (omega (arith, x)) in
    get_items_lem {d = base + 16} {o = base} {n = n} (base + 16) (sizes is) t.mem
      (bio_init_from_txn (call_txn target code flags t.bio)) is
      (
        omega (arith, x),
        omega (arith, x, size),
        omega (arith, x),
        omega (arith, x),
        omega (arith, x),
      )
      (omega arith) (omega arith) (omega arith) r held
