-- ===== src/Worker.antt =====
-- worker/src: the reservation sweeper and the order pipeline.
pub mod Sweeper
pub mod Pipeline
