-- ===== src/Connection.antt =====
-- src/connection: the event loop of the device. `Resend` is the task that sends, after a reconnection,
-- what was kept while the device was offline.
pub mod Resend
pub mod Incoming
pub mod EventLoop
