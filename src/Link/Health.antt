-- ===== src/Link/Health.antt =====
-- link/health.hpp and link/health.cpp: the health of the nodes and of the bus. The listener is the
-- program above; what it is told is the list `notices`, newest first.
pub mod Records
pub mod Tracker
pub mod Results
pub mod Probes
pub mod Invariant
pub mod Preserved
pub mod Runs
pub mod Transitions
pub mod Evolves
pub mod Paths
pub mod Rotation
