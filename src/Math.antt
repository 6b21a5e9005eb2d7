-- ===== src/Math.antt =====
-- shared/math.
pub mod Rng
