-- ===== src/Companion.antt =====
-- The companion's stores: `src/openhop_core/companion`.
pub mod Queue
pub mod Paths
pub mod Channels
pub mod Contacts
pub mod Stats
