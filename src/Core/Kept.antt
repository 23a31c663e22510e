-- ===== src/Core/Kept.antt =====
-- core/core_engine.cpp: the calls keep the tables of the assignment of node ids. Kept/Asked is about what
-- is asked of the nodes, Kept/Answered about what is made of the answers.
pub mod Asked
pub mod Planned
pub mod Answered
pub mod Superframe
