-- ===== src/Bench.antt =====
-- benchmarks/RadishBench.cpp: the client that measures the server.
pub mod Connection
pub mod Pipeline
pub mod Keys
pub mod Options
pub mod Workload
pub mod Worker
pub mod Statistics
pub mod Report
mod Tests
