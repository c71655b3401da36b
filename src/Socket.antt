-- ===== src/Socket.antt =====
-- private_libary/linux_socket/: transfers with retries, the head frame, and the server over them.
pub mod Transfer
pub mod HeadFrame
pub mod Server
pub mod Demo
pub mod Info
