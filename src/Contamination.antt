-- ===== src/Contamination.antt =====
-- The contamination check: backend/app/utils/minhash.py, backend/app/services/contamination_engine.py
-- and backend/app/tasks/contamination_tasks.py.
pub mod Score
pub mod Shingles
pub mod Examples
pub mod Classify
pub mod JsonFile
pub mod CorpusIndex
pub mod Detection
pub mod Reports
pub mod Job
pub mod AdHoc
