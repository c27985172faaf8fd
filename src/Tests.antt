-- ===== src/Tests.antt =====
-- Runs of the definitions on concrete inputs, and the theorems applied to them.
mod Permissions
mod Harness
mod Proactive
mod Data
mod Schedules
mod Runner
mod Limits
mod Admission
mod Retries
mod Outbox
mod Json
mod Worker
mod SubjectData
mod UserMemory
mod SqlGuard
