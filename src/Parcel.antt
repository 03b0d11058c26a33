-- ===== src/Parcel.antt =====
-- The marshalling buffer: system/binder/Parcel.cpp, include/binder/Parcel.h and `BinderIO` of
-- include/binder/Binder.h. A parcel is its `BinderIO` with the memory that it reads and writes.
-- Addresses, sizes and the two `int` counts are 32-bit patterns. The proofs are in Marshal.
mod State
mod Writer
mod Reader
unfoldable pub use State.*
unfoldable pub use Writer.*
unfoldable pub use Reader.*
