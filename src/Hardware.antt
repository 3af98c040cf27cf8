-- ===== src/Hardware.antt =====
-- The radio drivers: `src/openhop_core/hardware`.
pub mod Kiss
pub mod Modem
