-- ===== src/Memory.antt =====
-- src/app/MemoryInspection.cpp, MemoryData.cpp and MemoryController.cpp, and the byte texts of
-- src/app/AppActions.cpp.
pub mod Read
pub mod Hex
pub mod Format
pub mod Selection
