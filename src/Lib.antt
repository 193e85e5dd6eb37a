-- ===== src/Lib.antt =====
-- arkode is a backup manager: a scheduler decides which tasks are due, an orchestrator runs one task
-- (produce a dump, rename it, validate it, record the result), retention deletes what is too old, and
-- a second domain backs up folders into shared restic repositories behind a lock. This library models
-- the engine's decisions and the tables that they read and write. Paths are from the repository's root.
--
-- Types, FileTypes: the records of packages/engine-core/src/types.ts and of fileBackup/types.ts beside
--   it. An id is a number in place of a UUID, a time is a number of milliseconds in place of ISO text.
--   Fields that no modelled code reads or writes are left out (notes, durations, names of clients).
-- Tables: UPDATE and SELECT by id on a table as the list of its rows, newest row first; Tables.Recover
--   is the loop that fails the rows of dead processes, Tables.Keyed a table by a text, Tables.Newest
--   is ORDER BY started_at DESC, rowid DESC.
-- Tasks: packages/engine-core/src/db/repositories/tasksRepo.ts on the CHECK of its table, with Tasks.Create
--   and Tasks.Update for its guards; Tasks.Operations is a call of it as a value.
-- Calendar: what JavaScript's Date answers, in a time zone without daylight saving time.
-- Schedule: packages/engine-core/src/scheduler/isTaskDue.ts and nextOccurrence.ts, the copy in
--   fileBackup/scheduler/isFileBackupTaskDue.ts, and setSchedule of db/repositories/tasksRepo.ts.
--   The loop of nextScheduledRunAt is recursion on its 400 rounds, the source's own bound.
-- ProcessIdentity: util/processIdentity.ts. The process table is a parameter.
-- Runs, FileRuns: db/repositories/runsRepo.ts, fileBackup/db/repositories/fileBackupRunsRepo.ts and
--   fileBackupMaintenanceRunsRepo.ts. One function per operation, on the table.
-- Locking: fileBackup/locking/repositoryLock.ts.
-- Retention: retention/applyRetention.ts, retention/deleteBackupRun.ts and
--   db/repositories/retentionDeletionsRepo.ts. `unlink` is a parameter on the state of a disk.
-- Orchestrator: orchestrator/runBackupTask.ts. Its environment `Env` holds what a run meets: the
--   clock at each write, the new id, the read-only repositories, the executors, the hash, the
--   validators and the file system. An error is a value of `RunError`, a call ends in an `Outcome`.
--   The text of an error leaves out the ids and names that the source puts in.
-- RunDue: scheduler/runDueTasks.ts. What the k-th task of a pass meets is the k-th environment.
-- FileOrchestrator: fileBackup/orchestrator/runFileBackupTask.ts and
--   fileBackup/retention/applyFileBackupRetention.ts, with restic as a parameter.
-- FileRunDue: fileBackup/scheduler/runFileBackupDueTasks.ts, FileDeletion:
--   fileBackup/retention/deleteFileBackupRun.ts.
-- FileRepositories, Maintenance: fileBackup/db/repositories/fileBackupRepositoriesRepo.ts and
--   fileBackup/maintenance/runFileBackupMaintenance.ts. What the k-th operation of a sweep meets is the
--   k-th moment.
-- Replication: replication/replicationDue.ts. Replication.Target: replication/replicateTarget.ts, as what
--   comes before the copy and what comes after it; the pinning of a host key is left out.
--   Replication.Pass: replication/runDueReplications.ts.
-- SchedulerTick: scheduler/runSchedulerTick.ts, the four passes on the tables that they share. A phase
--   throws where the query that opens it does. Settings: db/repositories/settingsRepo.ts.
-- Pocket: packages/pocket-shared/src, what the desktop publishes for the phone. Pocket.Bytes is bytes.ts,
--   Pocket.Blob crypto.ts, Pocket.Payload types.ts, Pocket.Snapshot and Pocket.SyncFile format.ts,
--   Pocket.Pairing pairing.ts. AES-256-GCM, JSON text and UTF-8 are parameters, Pocket.Json is the values
--   that JSON.parse gives, with naturals as numbers. Prelude.Words is the bit operators on 32 bits.
-- Vault: packages/engine-core/src/vault. Vault.Crypto is crypto.ts, Vault.AutoUnlock autoUnlock.ts as
--   functions on the key file's content, Vault.Session and Vault.State vaultState.ts, one function per
--   operation on the variables of its closure. scrypt, AES-256-GCM, SHA-256 and DPAPI are parameters, and
--   what a call draws at random is an argument. Ciphertext is the layout that both cryptographies share.
--   Vault.Secrets is vaultSecretStore.ts on the table of Tables.Keyed, Vault.CredentialBlob
--   credentialBlob.ts, the secret part of a credential as one encrypted JSON text.
-- PocketState, PocketPublish: packages/engine-core/src/db/repositories/pocketStateRepo.ts with the
--   triggers of db/migrations/0023_add_pocket_state.sql, and vault/pocket/runPocketPublish.ts. rclone is
--   a parameter on the state of the remote folder. That one publication runs at a time, as
--   pocketPublishLock.ts has it, is built into the history of the row.
-- Dashboard: status/getDashboardStatus.ts, on tables given in the order of the rows' names.
--
-- The due test and the projection meet in Schedule.Due, the orchestrator and the due test in
-- Orchestrator.Daily, the lock and the run tables in Locking.Exclusion and FileOrchestrator.Release, all
-- passes in SchedulerTick, the dashboard and the scheduler in Dashboard.Rows, the tasks and their runs in
-- Tasks.Frozen, the vault's passwords and its secrets in Vault.Secrets.Refines.
--
-- SQL runs one statement at a time and every function here is one process's sequence of statements;
-- two processes between a check and the row that follows it are not modelled. Not modelled either:
-- log lines, the reports of progress within a run, the front ends, the transports, the restic and rclone programs, and
-- the ciphers. Examples modules run the definitions on the small inputs of Samples.
pub mod Prelude
pub mod Types
pub mod FileTypes
pub mod Tables
pub mod Calendar
pub mod Schedule
pub mod ProcessIdentity
pub mod Runs
pub mod FileRuns
pub mod Tasks
pub mod Locking
pub mod Retention
pub mod Samples
pub mod Orchestrator
pub mod RunDue
pub mod FileOrchestrator
pub mod FileRunDue
pub mod FileRepositories
pub mod FileDeletion
pub mod Maintenance
pub mod Replication
pub mod Settings
pub mod SchedulerTick
pub mod Dashboard
pub mod Ciphertext
pub mod Pocket
pub mod PocketState
pub mod PocketPublish
pub mod Vault
