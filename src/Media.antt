-- ===== src/Media.antt =====
-- The analysis of captured media in tools/vocera_media_qoe/vocera_media_qoe.py: the configuration and
-- the endpoints' roles, the timing figures, the plausibility check of RTP, and the streams. Python's
-- floating-point numbers are exact fractions.
mod Tests
pub mod Config
pub mod Timing
pub mod Plausibility
pub mod Streams
pub mod Flows
pub mod Metrics
