-- ===== src/Tests.antt =====
-- The theorems at concrete packets, frames and tables.
pub mod Samples
mod Wire
mod Forward
mod Kiss
mod Region
mod Filter
mod Contacts
mod Stores
pub mod Cipher
mod Messages
mod Acks
mod Receive
mod Modem
mod Adverts
