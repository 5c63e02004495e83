-- ===== src/Api.antt =====
-- The status and result types of include/corekit/api/status.hpp and src/api/status.cpp.
pub mod Status
pub mod Codes
mod Tests
