-- ===== src/Task.antt =====
-- src/task: a graph of tasks with dependencies.
pub mod Table
pub mod Graph
pub mod Validate
pub mod Run
pub mod Sorted
pub mod Formed
pub mod History
pub mod Degree
pub mod Built
pub mod Release
pub mod Kahn
pub mod Topological
pub mod Accepted
pub mod Levels
pub mod Log
pub mod Executed
pub mod Answers
mod Tests
