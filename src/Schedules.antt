-- ===== src/Schedules.antt =====
-- The recurring requests of users: schedules.py.
pub mod Recurrence
pub mod Store
pub mod Runner
