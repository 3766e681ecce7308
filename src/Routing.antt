-- ===== src/Routing.antt =====
-- internal/routing: the destination of a recipient's address.
pub mod Address
pub mod Peer
pub mod Engine
pub mod Runs
