-- ===== src/Lock.antt =====
-- src/kernel/task/exclusivelock.c: the blocking lock that the semaphore and the reader-writer lock
-- are built from. A task is its identity; the instance's state is passed in and out. The spinlock
-- `e->lock` is held from before `acquire` until the task is queued, so each call is one step.
pub mod Queue
pub mod Semaphore
pub mod ReaderWriter
mod Tests
