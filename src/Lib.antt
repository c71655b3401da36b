-- ===== src/Lib.antt =====
-- itrace: the programs that run on the ARM board between a client's sockets and two devices.
--
-- The programs. `acq_data_trans` serves acquisition data: a child process for each client reads a DMA
-- device into two buffers in one thread and sends them in another; the threads hand the buffers'
-- indices to one another through two pipes. `cmd_status_trans` serves commands and status data: one
-- thread of its child reads framed commands from the client's socket and writes them to the device,
-- another reads status data from the device and sends it. Both have a parent that accepts clients
-- and replaces the child, and in each process a thread that clears up when SIGINT has stopped the
-- system. They stand on `general` and on the helper libraries of `private_libary`.
--
-- The files.
-- - Prelude: shared names, tests, lists over the native numbers, C's signed results.
-- - Posix: `read` and `write` as the program uses them. A descriptor is the bytes still to come (or
--   taken) and a list of the kernel's answers; a list that runs out is a call that blocks.
--   Posix/Reliable says what a kernel that makes progress answers.
-- - General (general/general.c): `readn`, `writen`, `is_process_alive`, `print_log`.
--   `size_t` has 32 bits.
-- - Acq/Buffers (acq_data_trans/server.c): `init_dma_read_buffer`. Acq/Threads (the same file):
--   `read_dma_thread` and `send_acq_data_thread` as the relation `Work` (calls that succeed) and
--   `Fault` (calls that fail), a call at a time; `writen` to the socket is one step, which sends all
--   or, when it fails, a part; so is the `read` of the device.
--   Acq/Reader and Acq/Sender: the same two threads as functions, a call of `readn`, `read` or
--   `writen` after the other, with how their states stand to those of the relation.
--   Acq/Threads/Stream: the threads seen as a channel of bytes.
--   Acq/Setup: what the child does before, as an end and a list of effects. Acq/Child: a child from its
--   set-up on, a round of one of its threads after the other in any order, over the pipes that their
--   descriptors stand for; a turn brings the answers to all its calls, so that a thread whose call blocks takes no further one.
-- - Cmd/Device, Cmd/Net, Cmd/Status (cmd_status_trans/server.c): `writen_to_cmd_status_dev`,
--   `read_net_cmd_thread` with `reset_hardware`, and `send_status_data_thread`. The values that the
--   loops read of the system's status are a list. Cmd/Setup: what a child does before, and the frame
--   that a SPM writes. Cmd/Child: the two threads of a child interleaved, with the `socket_fd` that
--   one of them overwrites. Cmd/Gtx: `set_gtx_rx_ch_enable`. Cmd/Signals (cmd_status_trans/main.c): its
--   `sig_handler`, with the byte that it writes from an address made of a character.
-- - Lifecycle (both server.c): the accept loop of the parents, a turn at a time, `init_proc_source`
--   and the sources that the processes fill, and both `clear_thread`s as lists of effects. The loop
--   is one function for both servers, since they share its text; a parameter fills the source.
--   Lifecycle/Signals (acq_data_trans/main.c): `sig_handler`, and the clear thread behind the signals.
-- - Server (both server.c): `create_cmd_status_trans_server` and `create_acq_data_trans_server` as a
--   whole, composed of the listening socket, the loop of the parent and the set-up of a child.
--   Server/Main (both main.c): `main`, and what stands behind its first loop.
-- - Selftest (acq_data_trans/test.c, cmd_status_trans/test.c): `check_data_inc` and the loop around it.
--   Selftest/Device: the tests as a whole, without what they print.
-- - Serial/Desc, Serial/Flags, Serial/Settings (private_libary/linux_serial_port/linux_serial_port.c): the
--   descriptions and the setters. A flag word is a function from Linux's bit positions;
--   `cfsetispeed` and `cfsetospeed` do what they do there.
-- - Socket/Transfer, Socket/HeadFrame (private_libary/linux_socket/socket_protocol.c) and
--   Socket/Server (private_libary/linux_socket/linux_net_socket.c): transfers with retries, head
--   frames on a little-endian target, sockets with retries, and `create_netsock_server`. Socket/Info:
--   `struct net_socket_info` as its bytes, `init_socket_info`, and the names that are made of it.
-- - Strings (private_libary/cstring_extern_lib/cstring_extern_lib.c): `cstring_trim`, `str2upper` and
--   `str2lower`, `c_splite`, `print_as_hex`. Time (private_libary/time_extern_lib/time_extern_lib.c): the three
--   functions. Thread (private_libary/linux_thread/linux_thread.c): both functions. A string is the bytes
--   before its terminator; Strings/Split/Cut has the array that `strtok` cuts.
-- - Log (private_libary/log_type/log_type.h): `printc`, as the bytes that it prints.
-- - Socket/Demo, Serial/Demo, Thread/Demo, Strings/Demo, Time/Demo, Log/Demo (the main.c of each library):
--   the demonstration programs. The threads of Thread/Demo take turns that end where the variable that
--   they share has been read or written.
--
-- Fuel and bounds. `writen_to_cmd_status_dev` has a round more than there are bytes, and each round
-- moves one at least; `serve_conn` has a round more than the kernel has answers, and each round takes
-- one at least. All other loops recur on the answers, on the readings of the status, on a count or on
-- the turns that are taken. Counts are below 2 ^ 31 where a theorem says so, as a `ssize_t` of the target.
--
-- Not modelled: what the two servers and their tests print, sleeping, and `protocol` of the socket
-- demonstration, which only prints. `malloc` is taken to succeed where its result is not tested. What the
-- compiler may make of the variable that Thread/Demo shares, which is not volatile, is left out.
-- SIMU_MODE is off, as it is in general/general.h.
pub mod Prelude
pub mod Posix
pub mod General
pub mod Acq
pub mod Cmd
pub mod Lifecycle
pub mod Log
pub mod Selftest
pub mod Serial
pub mod Server
pub mod Socket
pub mod Strings
pub mod Time
pub mod Thread
