-- ===== src/Threads.antt =====
-- Several threads on one Redis context (the thread-per-connection mode of src/webstore.c): what each
-- does between rai_lock and rai_unlock (src/rai.c) is a section, and the threads' steps interleave in
-- any order.
pub mod Sections
pub mod System
pub mod Serial
pub mod Turn
pub mod Invariant
pub mod Limit
pub mod Burn
pub mod Expired
