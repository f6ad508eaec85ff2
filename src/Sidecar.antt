-- ===== src/Sidecar.antt =====
-- The process that runs beside containerd (sidecar/src/main.rs).
pub mod Subnets
pub mod Networks
