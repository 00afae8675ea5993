-- ===== src/RfValidation.antt =====
-- tools/vocera_rf_validation: the correlation of the badge's scans with the Ekahau survey points
-- (correlate.py), the data it works on (models.py), and the run of the whole pipeline
-- (run_executor.py).
mod Tests
pub mod Models
pub mod Window
pub mod Template
pub mod Correlate
pub mod Alignment
pub mod Executor
