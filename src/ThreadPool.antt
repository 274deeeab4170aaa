-- ===== src/ThreadPool.antt =====
-- The thread pool of fram/module/threadpool: its lists, its event queue, its size and its calls.
pub mod EventList
pub mod EventQueue
pub mod WorkerList
pub mod Core
pub mod Calls
mod Tests
