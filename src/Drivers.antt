-- ===== src/Drivers.antt =====
-- The driver framework of kernel/drivers.
pub mod Device
