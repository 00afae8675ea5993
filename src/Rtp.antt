-- ===== src/Rtp.antt =====
-- RTP evidence of tools/vocera_media_qoe/vocera_media_qoe.py.
pub mod Keys
pub mod Frame
mod Capture
pub mod Pcapng
pub mod Pcap
pub mod Timestamp
pub mod Sequence
mod Tests
