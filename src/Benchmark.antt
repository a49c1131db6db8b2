-- ===== src/Benchmark.antt =====
-- internal/benchmark: what is measured of the server.
pub mod Statistics
pub mod ProcessMetrics
pub mod StrictJson
mod Tests
