-- ===== src/Drivers/Device.antt =====
-- kernel/drivers/device.c and device.h: devices, their drivers, and requests to them.
pub mod Types
pub mod Stats
pub mod Power
pub mod Requests
pub mod DriverList
pub mod Registry
pub mod Gentle
pub mod Lifecycle
pub mod Counters
pub mod References
pub mod Submission
pub mod Reading
pub mod Listing
pub mod Links
pub mod Removal
pub mod Expiry
