-- ===== src/Examples.antt =====
-- The scripts under examples/ that call the package.
pub mod ConcurrentWriters
