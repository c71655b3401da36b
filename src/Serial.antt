-- ===== src/Serial.antt =====
-- private_libary/linux_serial_port/: the settings of a serial port.
pub mod Desc
pub mod Flags
pub mod Settings
pub mod Demo
