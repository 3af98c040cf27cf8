-- ===== src/Node.antt =====
-- The mesh node: `src/openhop_core/node`.
pub mod Forward
pub mod Acks
pub mod Text
pub mod Advert
pub mod Receive
pub mod Airtime
