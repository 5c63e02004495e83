-- ===== src/Concurrent.antt =====
-- The containers of src/concurrent, each behind a mutex: a call is one step.
pub mod Ring
pub mod Queue
pub mod Order
pub mod Bounded
pub mod Map
pub mod Finite
pub mod Calls
pub mod Agree
pub mod Window
pub mod Fifo
mod Tests
