-- ===== src/Acq.antt =====
-- acq_data_trans/: the server that moves DMA data to a client over two buffers and two threads.
pub mod Buffers
pub mod Threads
pub mod Reader
pub mod Sender
pub mod Setup
pub mod Child
