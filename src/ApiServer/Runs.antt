-- ===== src/ApiServer/Runs.antt =====
-- The handlers of runs, in runs.py.
pub mod Limits
pub mod Change
pub mod Wait
pub mod Times
pub mod Twice
pub mod Lists
pub mod Outcome
pub mod Delays
pub mod Judged
pub mod Unready
