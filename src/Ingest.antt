-- ===== src/Ingest.antt =====
-- Ingest of WLC capture uploads: the primitives of
-- tools/vocera_media_qoe/vocera_wlc_session_ingest.py and the artifact states that
-- tools/study_web/main.py drives with them.
pub mod Stability
pub mod Container
pub mod Finalize
pub mod Artifact
mod Tests
