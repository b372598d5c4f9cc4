-- ===== src/Condition.antt =====
-- src/backend/conditions/BreakpointCondition.cpp: the language of breakpoint conditions.
pub mod Syntax
pub mod Scanner
pub mod Literals
pub mod Parser
pub mod Evaluate
pub mod Compile
pub mod Pattern
pub mod WellFormed
pub mod Keeps
pub mod Sound
pub mod Compiled
