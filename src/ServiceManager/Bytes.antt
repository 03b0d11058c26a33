-- ===== src/ServiceManager/Bytes.antt =====
-- The memory of the service manager, frameworks/servicemanager/ServiceManager.cpp, holds bytes: what
-- the `put` functions of system/binder/Parcel.cpp write into a reply keeps it so.
use zeus_os.Base.{
  ℕ, zero, suc, ◌+◌, ◌<◌, Option, none, some, List, [], ◌∷◌, arith, ◌==◌, Bool-cases, inl, inr, All,
}
use zeus_os.Memory.{Mem, store, word_bytes}
use zeus_os.Parcel.{
  Parcel, BinderIo, bio_alloc, bio_alloc_obj, note_obj, write_at, write_obj, object_bytes,
  put_uint32, put_ref,
}

abbrev pub IsBytes : Mem → Type 0
IsBytes m = (a : ℕ) → m a < 256

abbrev pub AreBytes : List ℕ → Type 0
AreBytes bs = All (λ (b : ℕ). b < 256) bs

pub store-IsBytes :
    (m : Mem) (p : ℕ) (bs : List ℕ) → IsBytes m → AreBytes bs → IsBytes (store m p bs)
unfolding store
store-IsBytes m p [] h k a = h a
store-IsBytes m p (b ∷ bs) h k a = elim (Bool-cases (a == p)) [
  | inl y ↦ rw y k.0
  | inr n ↦ rw n (store-IsBytes m (p + 1) bs h k.1 a)
]

word_bytes-AreBytes : (w : ℕ) → AreBytes (word_bytes w)
unfolding word_bytes
word_bytes-AreBytes w = (omega arith, (omega arith, (omega arith, (omega arith, tt))))

object_bytes-AreBytes : (type handle : ℕ) → AreBytes (object_bytes type handle)
unfolding word_bytes
object_bytes-AreBytes type handle = ground arith

write_at-IsBytes :
    (m : Mem) (r : Option ℕ × BinderIo) (bs : List ℕ)
    → IsBytes m
    → AreBytes bs
    → IsBytes (write_at m r bs).mem
write_at-IsBytes m (none, b) bs h k = h
write_at-IsBytes m (some p, b) bs h k = store-IsBytes m p bs h k

pub put_uint32-IsBytes : (v : ℕ) (p : Parcel) → IsBytes p.mem → IsBytes (put_uint32 v p).mem
unfolding put_uint32
put_uint32-IsBytes v p h =
    write_at-IsBytes p.mem (bio_alloc 4 p.bio) (word_bytes v) h (word_bytes-AreBytes v)

note_obj-IsBytes : (m : Mem) (r : Option ℕ × BinderIo) → IsBytes m → IsBytes (note_obj m r).1.mem
unfolding note_obj
note_obj-IsBytes m (none, b) h = h
note_obj-IsBytes m (some p, b) h = elim (Bool-cases (b.offs_avail == 0)) [
  | inl y ↦ rw y h
  | inr n ↦ rw n (store-IsBytes m b.offs _ h (word_bytes-AreBytes _))
]

write_obj-IsBytes :
    (type handle : ℕ) (r : Option ℕ × Parcel)
    → IsBytes r.1.mem
    → IsBytes (write_obj type handle r).mem
write_obj-IsBytes type handle (none, p) h = h
write_obj-IsBytes type handle (some obj, p) h =
    store-IsBytes p.mem obj (object_bytes type handle) h (object_bytes-AreBytes type handle)

pub put_ref-IsBytes : (handle : ℕ) (p : Parcel) → IsBytes p.mem → IsBytes (put_ref handle p).mem
unfolding put_ref bio_alloc_obj
put_ref-IsBytes zero p h =
    write_at-IsBytes p.mem (bio_alloc 16 p.bio) _ h (object_bytes-AreBytes _ 0)
put_ref-IsBytes (suc n) p h =
    write_obj-IsBytes _ (suc n) (bio_alloc_obj p) (note_obj-IsBytes p.mem (bio_alloc 16 p.bio) h)
