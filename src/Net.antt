-- ===== src/Net.antt =====
-- The network device's side of a request: devices/ooows-net.cpp on devices/utils/mem-manager.cpp.
pub mod Guest
pub mod Device
pub mod Access
pub mod Send
pub mod Range
pub mod Phy
pub mod Steps
pub mod GotData
mod Tests
