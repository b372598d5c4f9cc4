-- ===== src/Condition/Sound.antt =====
-- src/backend/conditions/BreakpointCondition.cpp: with enough fuel, each node parser ends with a
-- well-formed node and the parser's state kept, or with a null pointer and a message.
pub mod Good
mod Calls
pub mod Nodes
