-- ===== src/Session.antt =====
-- The WLC capture-session workflow: tools/vocera_media_qoe/vocera_wlc_session.py. A package
-- directory is the record `Package`; what a command reads from the clock, the environment and the
-- id generators is the record `Ambient`.
pub mod Package
pub mod Summary
pub mod Attempts
mod Tests
