-- ===== src/Wappush.antt =====
-- internal/wappush: a protocol data unit in a WAP push, and the push in short messages.
pub mod Push
pub mod Sms
pub mod Runs
