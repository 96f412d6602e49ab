-- ===== src/Iosched.antt =====
-- demos/iosched: requests, the noop, deadline and cfq schedulers, and the switch between them.
pub mod Request
pub mod Queue
pub mod Deadline
pub mod Noop
pub mod Cfq
pub mod Switch
