-- ===== src/Sync.antt =====
-- corlib/mutex.h and corlib/mutex.cpp: the scoped locks (Sync/Scoped), the lock that spins on a flag
-- (Sync/CasLock), and the semaphore on which fibers wait (Sync/Semaphore, Sync/Fair). The mutexes that
-- wrap pthreads are calls of a library, and appear as the calls that a scoped lock makes.
pub mod Scoped
pub mod CasLock
pub mod Exclusion
pub mod Semaphore
pub mod Fair
pub mod Served
pub mod Tests
