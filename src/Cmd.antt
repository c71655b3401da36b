-- ===== src/Cmd.antt =====
-- cmd_status_trans/: the server that carries commands to the device and status data to the client.
pub mod Device
pub mod Net
pub mod Status
pub mod Setup
pub mod Child
pub mod Gtx
pub mod Signals
