-- ===== src/Binder.antt =====
-- The client library of the binder driver: system/binder/Binder.cpp and include/binder/Binder.h.
-- The driver itself is the kernel's: what it is sent is recorded, and what it answers is an
-- argument. The proofs are in Exchange.
mod Protocol
mod Session
mod Parse
mod Call
mod References
unfoldable pub use Protocol.*
unfoldable pub use Session.*
unfoldable pub use Parse.*
unfoldable pub use Call.*
pub use References.*
