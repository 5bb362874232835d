-- ===== src/Demo.antt =====
-- The demos in src/demo that publish and consume without end.
pub mod Throughput
pub mod Producer
pub mod Consumer
