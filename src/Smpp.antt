-- ===== src/Smpp.antt =====
-- internal/smpp: the protocol data units of the short message service, as bytes.
pub mod Pdu
pub mod Codec
pub mod Upstream
pub mod Receipt
pub mod Session
pub mod Submit
pub mod Manager
pub mod Runs
pub mod ClientRuns
