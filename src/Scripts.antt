-- ===== src/Scripts.antt =====
-- The Lua scripts of redis.go, which Redis runs atomically: functions of the store. KEYS is a list
-- of records where the script reads it in fixed steps.
pub mod Fetch
pub mod Reenqueue
pub mod Reap
pub mod Requeue
pub mod Delete
pub mod Retry
pub mod Unique
