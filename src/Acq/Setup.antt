-- ===== src/Acq/Setup.antt =====
-- acq_data_trans/server.c: what a child process does before its threads run, in
-- `create_acq_data_trans_server`, with `open_dma_device` and `clear_dma_dev_sour`. `close_fd` only
-- sets variables that the process does not read again, and so leaves no trace here.
pub mod Indices
pub mod Laws
mod Tests
use itrace.Prelude.{
  ℕ, List, [], ◌∷◌, ◌++◌, Option, none, some, Bool, true, false, not, if◌then◌else◌, ℤ, pos,
  minus_one, is_pos, is_neg, ◌==ℤ◌,
}
use itrace.Posix.{Sink}
use itrace.General.{writen}
use itrace.Acq.Buffers.{DmaBuffer, init_dma_read_buffer}
use itrace.Lifecycle.Sources.{ProcSource, acq_child_source}

-- The two ends of a pipe: `fd[PIPE_READ]` and `fd[PIPE_WRITE]`.
pub record Pipe : Type 0 where
  pub read_end : ℤ
  pub write_end : ℤ

-- `struct ReadDmaThreadParams`
pub record ReadParams : Type 0 where
  pub buff_0 : DmaBuffer
  pub buff_1 : DmaBuffer
  pub dma_index_r_fd : ℤ
  pub socket_index_w_fd : ℤ
  pub dma_fd : ℤ

-- `struct SendAcqDataThreadParams`
pub record SendParams : Type 0 where
  pub buff_0 : DmaBuffer
  pub buff_1 : DmaBuffer
  pub dma_index_w_fd : ℤ
  pub socket_index_r_fd : ℤ
  pub socket_fd : ℤ

pub data Effect : Type 0 where
  soft_reset : ℤ → Effect  -- `ioctl(dma_fd, SET_SOFT_RESET, 0)`
  unmap : ℕ → Effect  -- `munmap`
  start_reader : ReadParams → Effect
  start_sender : SendParams → Effect
  start_clear : ProcSource → Effect

-- What the calls give: `open`, `mmap` (an address, or NULL), the two `malloc` of a buffer, the two
-- `pipe` (`none` if it fails), and the three `pthread_create`; `sinks` takes what is written to each
-- descriptor. The `malloc` of the parameters is taken to succeed, as the source does.
pub record Calls : Type 0 where
  pub opened : ℤ
  pub area : Option ℕ
  pub allocated_0 : Bool
  pub allocated_1 : Bool
  pub dma_index_pipe : Option Pipe
  pub socket_index_pipe : Option Pipe
  pub sinks : ℤ → Sink
  pub reader_created : Bool
  pub sender_created : Bool
  pub clear_created : Bool

-- How the set-up ends: the device is not there (the process goes on without threads), the process
-- has left by `exit`, a call blocks, or all threads are created.
pub data End : Type 0 where
  no_device : End
  exited : End
  blocked : End
  ready : End

pub record Child : Type 0 where
  pub end : End
  pub effects : List Effect
  pub sinks : ℤ → Sink

-- `fd` has been written to.
abbrev pub set_sink : (ℤ → Sink) → (fd : ℤ) → Sink → ℤ → Sink
set_sink sinks fd s at = if at ==ℤ fd then s else sinks at

-- `open_dma_device`: the descriptor, and what it does to the device.
unfoldable pub open_dma_device : ℤ → ℤ × List Effect
open_dma_device opened = if is_pos opened then (opened, soft_reset opened ∷ []) else (minus_one, [])

-- `clear_dma_dev_sour`; its `close_fd` is given the address of its own parameter.
abbrev pub clear_dma_dev_sour : Option ℕ → List Effect
clear_dma_dev_sour none = []
clear_dma_dev_sour (some mmap_data) = unmap mmap_data ∷ []

-- The three threads, by whether they are created.
unfoldable pub start_threads :
    (conn_fd dma_fd : ℤ)
    → (area : ℕ) → (b0 b1 : DmaBuffer) → (dma sock : Pipe)
    → (reader_created sender_created clear_created : Bool) → End × List Effect
start_threads conn_fd dma_fd area b0 b1 dma sock reader_created sender_created clear_created =
    let reader = start_reader record {
      buff_0 = b0;
      buff_1 = b1;
      dma_index_r_fd = dma.read_end;
      socket_index_w_fd = sock.write_end;
      dma_fd = dma_fd;
    } in
    let sender = start_sender record {
      buff_0 = b0;
      buff_1 = b1;
      dma_index_w_fd = dma.write_end;
      socket_index_r_fd = sock.read_end;
      socket_fd = conn_fd;
    } in
    let clear = start_clear (
      acq_child_source dma_fd conn_fd dma.read_end dma.write_end sock.read_end sock.write_end
        b0.data_at b1.data_at) in
    if not reader_created
    then (exited, clear_dma_dev_sour (some area))
    else if not sender_created
    then (exited, reader ∷ clear_dma_dev_sour (some area))
    else if not clear_created
    then (exited, reader ∷ sender ∷ clear_dma_dev_sour (some area))
    else (ready, reader ∷ sender ∷ clear ∷ [])

-- What follows on the `writen` of the two indices, by its result.
unfoldable pub after_indices :
    (conn_fd dma_fd : ℤ)
    → Calls
    → (area : ℕ) → (b0 b1 : DmaBuffer) → (dma sock : Pipe) → (sinks : ℤ → Sink) → Option ℤ
    → Child
after_indices conn_fd dma_fd c area b0 b1 dma sock s none = record {
  end = blocked;
  effects = [];
  sinks = s;
}
after_indices conn_fd dma_fd c area b0 b1 dma sock s (some ret) = elim (ret ==ℤ pos 2) [
  | true ↦
      let r =
        start_threads conn_fd dma_fd area b0 b1 dma sock c.reader_created c.sender_created
          c.clear_created in
      record { end = r.0; effects = r.1; sinks = s }
  | false ↦ record { end = exited; effects = clear_dma_dev_sour (some area); sinks = s }
]

-- "init pipe"
unfoldable pub write_indices :
    (conn_fd dma_fd : ℤ) → Calls → (area : ℕ) → (b0 b1 : DmaBuffer) → (dma sock : Pipe) → Child
write_indices conn_fd dma_fd c area b0 b1 dma sock =
    let w = writen dma.write_end (c.sinks dma.write_end) (0 ∷ 1 ∷ []) 2 in
    after_indices conn_fd dma_fd c area b0 b1 dma sock (set_sink c.sinks dma.write_end w.sink) w.ret

abbrev leave : Calls → List Effect → Child
leave c effects = record { end = exited; effects = effects; sinks = c.sinks }

-- "index pipe", by the two pipes made
unfoldable pub make_pipes :
    (conn_fd dma_fd : ℤ)
    → Calls
    → (area : ℕ) → (b0 b1 : DmaBuffer) → (dma_index_pipe socket_index_pipe : Option Pipe) → Child
make_pipes conn_fd dma_fd c area b0 b1 none sock = leave c (clear_dma_dev_sour (some area))
make_pipes conn_fd dma_fd c area b0 b1 (some dma) none = leave c (clear_dma_dev_sour (some area))
make_pipes conn_fd dma_fd c area b0 b1 (some dma) (some sock) =
    write_indices conn_fd dma_fd c area b0 b1 dma sock

-- The loop that fills `dma_buf_list`, by what the two calls of `init_dma_read_buffer` return.
unfoldable pub make_buffers :
    (conn_fd dma_fd : ℤ) → Calls → (area : ℕ) → (buff_0 buff_1 : Option DmaBuffer) → Child
make_buffers conn_fd dma_fd c area none buff_1 = leave c (clear_dma_dev_sour (some area))
make_buffers conn_fd dma_fd c area (some b0) none = leave c (clear_dma_dev_sour (some area))
make_buffers conn_fd dma_fd c area (some b0) (some b1) =
    make_pipes conn_fd dma_fd c area b0 b1 c.dma_index_pipe c.socket_index_pipe

-- With the device open, by what `mmap` returns.
unfoldable pub map_area : (conn_fd dma_fd : ℤ) → Calls → (area : Option ℕ) → Child
map_area conn_fd dma_fd c none = leave c []
map_area conn_fd dma_fd c (some area) =
    make_buffers conn_fd dma_fd c area (init_dma_read_buffer c.allocated_0 0 area)
      (init_dma_read_buffer c.allocated_1 1 area)

-- By what `open` returns.
unfoldable pub set_up_from : (conn_fd : ℤ) → Calls → (opened : ℤ) → Child
set_up_from conn_fd c opened =
    let (dma_fd, opening) = open_dma_device opened in
    if is_neg dma_fd
    then record { end = no_device; effects = opening; sinks = c.sinks }
    else (let r = map_area conn_fd dma_fd c c.area in
        record { end = r.end; effects = opening ++ r.effects; sinks = r.sinks })

-- The child, with the socket of its client.
unfoldable pub set_up_child : (conn_fd : ℤ) → Calls → Child
set_up_child conn_fd c = set_up_from conn_fd c c.opened
