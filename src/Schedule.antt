-- ===== src/Schedule.antt =====
-- When a task runs: packages/engine-core/src/scheduler/isTaskDue.ts and nextOccurrence.ts,
-- fileBackup/scheduler/isFileBackupTaskDue.ts, and `setSchedule` of db/repositories/tasksRepo.ts.
pub mod TimeText
pub mod IsDue
pub mod Next
pub mod SetSchedule
pub mod Days
pub mod Search
pub mod Laws
pub mod Due
pub mod Written
pub mod Planned
pub mod Twins
mod Examples
