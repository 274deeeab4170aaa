-- ===== src/Ipc.antt =====
-- The shared memory and the lock of fram/module/ipc.
pub mod Bytes
pub mod Rows
pub mod Sort
pub mod Shm
pub mod RwLock
pub mod ArrShm
