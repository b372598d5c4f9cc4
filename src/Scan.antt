-- ===== src/Scan.antt =====
-- src/backend/lldb/LldbEngineScanning.cpp: the values of a memory scan.
pub mod Values
pub mod Encoding
