-- ===== src/Evidence.antt =====
-- The verdict on a broadcast attempt: tools/vocera_media_qoe/vocera_wlc_evidence.py.
pub mod Verdict
mod Tests
