-- ===== src/Protocol.antt =====
-- The wire protocol: `src/openhop_core/protocol`.
pub mod Constants
pub mod Crypto
pub mod PathLen
pub mod Header
pub mod Packet
pub mod Wire
pub mod Hashing
pub mod PathOps
pub mod Builder
pub mod Advert
pub mod Filter
pub mod Region
