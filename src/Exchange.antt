-- ===== src/Exchange.antt =====
-- What the driver library of system/binder/Binder.cpp guarantees, by what is proved.
pub mod Payload
pub mod Returns
pub mod Parsing
pub mod Ends
pub mod Calls
pub mod Loops
pub mod Keeping
pub mod Replies
pub mod Examples
pub mod Answers
