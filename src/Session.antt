-- ===== src/Session.antt =====
-- src/backend/session/SessionStore.cpp and SessionStore.h: the saved sessions.
pub mod Data
pub mod Json
pub mod Decode
pub mod Encode
pub mod Parts
pub mod Writing
pub mod RoundTrip
pub mod Analysis
pub mod Comments
pub mod WellFormed
pub mod Disk
pub mod Atomic
pub mod Mutations
pub mod Distinct
pub mod AsMap
pub mod Store
pub mod Operations
pub mod Clear
pub mod Thrown
pub mod Saved
pub mod Reading
pub mod ReadBack
pub mod Kept
pub mod Preflight
pub mod Shorter
pub mod Ends
