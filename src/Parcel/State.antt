-- ===== src/Parcel/State.antt =====
-- The state of a parcel: `BinderIO` and `binder_transaction_data` of include/binder/Binder.h, the
-- constructor and `bioInitFromTxn` of system/binder/Parcel.cpp.
use zeus_os.Base.{ℕ, ◌+◌, ◌-◌, ◌*◌, ◌/◌, ◌%◌, Bool, true, false}
use zeus_os.Memory.{Mem, u32_mod}

-- The bits BIO_F_SHARED, BIO_F_OVERFLOW and BIO_F_IOERROR of the word `flags`.
pub record BioFlags : Type 0 where
  pub shared : Bool
  pub overflow : Bool
  pub ioerror : Bool

abbrev pub no_flags : BioFlags
no_flags = record { shared = false; overflow = false; ioerror = false }

pub record BinderIo : Type 0 where
  pub data_ptr : ℕ
  pub offs : ℕ
  pub data_avail : ℕ
  pub offs_avail : ℕ
  pub data0 : ℕ
  pub offs0 : ℕ
  pub flags : BioFlags

pub record Parcel : Type 0 where
  pub mem : Mem
  pub bio : BinderIo

-- flags |= BIO_F_OVERFLOW
abbrev pub raise_overflow : BinderIo → BinderIo
raise_overflow b = record b { flags = record (b.flags) { overflow = true } }

-- (size + 3) & (~3)
abbrev pub align4 : ℕ → ℕ
align4 size = (size + 3) % u32_mod / 4 * 4

-- data += size; data_avail -= size
abbrev pub advance : ℕ → BinderIo → BinderIo
advance size b = record b {
  data_ptr = (b.data_ptr + size) % u32_mod;
  data_avail = (b.data_avail + u32_mod - size) % u32_mod;
}

-- Parcel::Parcel, with the address of the 1024 bytes that it allocates.
unfoldable pub new_parcel : ℕ → BinderIo
new_parcel io_data = record {
  data_ptr = io_data + 16;
  offs = io_data;
  data_avail = 1024 - 16;
  offs_avail = 4;
  data0 = io_data + 16;
  offs0 = io_data;
  flags = no_flags;
}

-- The fields of a `binder_transaction_data` in the order of the struct.
pub record Txn : Type 0 where
  pub target : ℕ
  pub txn_cookie : ℕ
  pub code : ℕ
  pub txn_flags : ℕ
  pub sender_pid : ℕ
  pub sender_euid : ℕ
  pub data_size : ℕ
  pub offsets_size : ℕ
  pub buffer : ℕ
  pub offsets : ℕ

unfoldable pub bio_init_from_txn : Txn → BinderIo
bio_init_from_txn txn = record {
  data_ptr = txn.buffer;
  offs = txn.offsets;
  data_avail = txn.data_size;
  offs_avail = txn.offsets_size / 4;
  data0 = txn.buffer;
  offs0 = txn.offsets;
  flags = record { shared = true; overflow = false; ioerror = false };
}
