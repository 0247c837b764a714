-- ===== src/Runtime.antt =====
-- crates/lemnos-runtime: the synchronous runtime.
pub mod Bytes
pub mod Notifier
pub mod EventLog
pub mod Retention
pub mod Cursors
pub mod Reachable
pub mod Limits
pub mod Diagnostics
pub mod Defs
pub mod Operations
pub mod Requests
pub mod Refresh
pub mod Atomic
pub mod Failures
pub mod Binding
pub mod Lifecycle
pub mod Answers
pub mod Rebinds
pub mod Watch
pub mod WatchScope
pub mod WatchRuns
pub mod Watched
