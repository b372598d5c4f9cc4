-- ===== src/Navigation.antt =====
-- src/app/AppActions.cpp: navigation through code and memory, and its history.
pub mod State
pub mod History
pub mod Actions
pub mod Nearest
pub mod Valid
pub mod Entries
pub mod Refreshed
pub mod Traverse
pub mod Traversal
