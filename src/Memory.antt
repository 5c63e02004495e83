-- ===== src/Memory.antt =====
-- The allocators and pools of src/memory.
pub mod System
pub mod Backends
pub mod Global
pub mod Config
pub mod Held
pub mod Books
pub mod Reconfigured
mod GlobalTests
pub mod Live
pub mod ObjectPool
pub mod Count
pub mod Pooled
pub mod Clients
pub mod Undo
pub mod Owned
pub mod Slips
mod Tests
