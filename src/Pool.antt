-- ===== src/Pool.antt =====
-- src/task/thread_pool_executor.cpp: the thread pool executor.
pub mod State
pub mod Submit
pub mod Work
pub mod Places
pub mod Sound
pub mod Clients
pub mod Taken
pub mod Worked
pub mod Inside
pub mod Safe
pub mod Picked
pub mod Chunks
pub mod Wrapped
pub mod Parallel
pub mod Expired
pub mod Canceled
mod Tests
