-- ===== src/Marshal.antt =====
-- What the marshalling code of system/binder/Parcel.cpp guarantees, by what is proved.
pub mod Bounds
pub mod Items
pub mod Layout
pub mod Stored
pub mod RoundTrip
pub mod Room
pub mod Delivery
pub mod Requests
pub mod Translation
pub mod Entries
pub mod Transit
pub mod Reading
pub mod Examples
