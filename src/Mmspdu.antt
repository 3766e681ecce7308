-- ===== src/Mmspdu.antt =====
-- internal/mmspdu: the binary MMS protocol data units and their values.
pub mod Runs
pub mod ValueRuns
pub mod Types
pub mod Integers
pub mod Strings
pub mod Reader
pub mod Values
pub mod Header
pub mod ContentType
pub mod Multipart
pub mod Codec
pub mod Messages
