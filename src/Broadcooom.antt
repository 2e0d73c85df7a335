-- ===== src/Broadcooom.antt =====
-- The packet processor of the network device: devices/broadcooom/types.hpp, microengine.hpp,
-- microengine.cpp and myqueue.hpp. The object of class `Microengine` is one value of `Engine`.
pub mod Opcode
pub mod Types
pub mod Crc
pub mod Engine
pub mod Alu
pub mod Fields
pub mod Jobs
pub mod Interp
pub mod Threads
pub mod Copies
pub mod Bounds
pub mod Wide
pub mod Table
pub mod Constants
pub mod Program
pub mod Merge
mod Tests
