-- ===== src/Multicast.antt =====
-- Vocera dynamic multicast pool helpers: tools/vocera_media_qoe/vocera_multicast.py.
pub mod Vlan
pub mod Mac
mod Tests
