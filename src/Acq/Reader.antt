-- ===== src/Acq/Reader.antt =====
-- acq_data_trans/server.c, `read_dma_thread` call by call: an index comes from the pipe of free
-- buffers, the device's data goes into that buffer, and the index goes into the pipe of full buffers.
pub mod Match
pub mod Calls
pub mod Refines
pub mod Spares
mod Tests
use itrace.Prelude.{
  ℕ, List, [], ◌∷◌, ◌++◌, Option, none, some, Bool, true, false, if◌then◌else◌, get_or, drop,
  length, ℤ, pos, minus_one, ◌==ℤ◌,
}
use itrace.Posix.{Source, Sink, read, got, failed}
use itrace.General.{SystemStatus, running, stop, readn, writen}
use itrace.Acq.Buffers.{max_dma_length}
use itrace.Acq.Threads.{Buffer, update}

-- What the thread works on: its end of the pipe of free buffers, the device, the buffer numbers that
-- `ioctl` has told the device, its end of the pipe of full buffers, and `buff_list`.
pub record DmaReader : Type 0 where
  pub dma_index : Source
  pub dev : Source
  pub offsets : List ℕ
  pub socket_index : Sink
  pub buff_list : ℕ → Buffer

-- How a round of the loop ends: with the next test of the status, out of the loop, or in a call that
-- blocks. All but the first three name the buffer in hand.
pub data Round : Type 0 where
  again : Round
  index_lost : Round  -- "read index from dma pipe failed"
  index_blocked : Round
  device_lost : (buf_index : ℕ) → Round  -- "read dma failed"
  device_blocked : (buf_index : ℕ) → Round
  pipe_lost : (buf_index : ℕ) → Round  -- "write index to socket pipe failed"
  pipe_blocked : (buf_index : ℕ) → Round

-- The buffer is filled. `socket_index_w_fd` is the descriptor of the pipe.
pub pass_index : (socket_index_w_fd : ℤ) → (buf_index : ℕ) → DmaReader → Round × DmaReader
pass_index socket_index_w_fd buf_index t =
    let w = writen socket_index_w_fd t.socket_index (buf_index ∷ []) 1 in
    let t' : DmaReader = record t { socket_index = w.sink } in
    elim w.ret [
      | none ↦ (pipe_blocked buf_index, t')
      | some ret ↦ (if ret ==ℤ pos 1 then again else pipe_lost buf_index, t')
    ]

-- `curr_buf->length = read(params->dma_fd, curr_buf->data, MAX_DMA_LENGTH)`, an interrupted `read`
-- included; the bytes past the length are not used.
pub fill_buffer : (socket_index_w_fd : ℤ) → (buf_index : ℕ) → DmaReader → Round × DmaReader
fill_buffer socket_index_w_fd buf_index t = elim t.dev.answers [
  | [] ↦ (device_blocked buf_index, t)
  | a ∷ rest ↦ elim (read a max_dma_length t.dev.pending) [
    | got bs ↦ pass_index socket_index_w_fd buf_index (record t {
      dev = record { pending = drop (length bs) t.dev.pending; answers = rest };
      buff_list = update t.buff_list buf_index (record { length = pos (length bs); bytes = bs });
    })
    | failed e ↦ (
      device_lost buf_index,
      record t {
        dev = record { pending = t.dev.pending; answers = rest };
        buff_list =
            update t.buff_list buf_index
              (record { length = minus_one; bytes = (t.buff_list buf_index).bytes });
      },
    )
  ]
]

pub read_round : (socket_index_w_fd : ℤ) → DmaReader → Round × DmaReader
read_round socket_index_w_fd t =
    let r = readn t.dma_index 1 in
    let t' : DmaReader = record t { dma_index = r.left } in
    elim r.ret [
      | none ↦ (index_blocked, t')
      | some ret ↦
          if ret ==ℤ pos 1
          then (let buf_index = get_or r.stored 0 0 in
              fill_buffer socket_index_w_fd buf_index
                (record t' { offsets = t'.offsets ++ buf_index ∷ [] }))
          else (index_lost, t')
    ]

pub data Outcome : Type 0 where
  looping : Outcome
  stopped : Outcome
  left : Round → Outcome

-- The loop, over the values that the tests of `*(params->sys_status)` read.
pub read_dma_thread : List SystemStatus → (socket_index_w_fd : ℤ) → DmaReader → Outcome × DmaReader
read_dma_thread [] fd t = (looping, t)
read_dma_thread (stop ∷ readings) fd t = (stopped, t)
read_dma_thread (running ∷ readings) fd t =
    let (round, t') = read_round fd t in
    elim round [ again ↦ read_dma_thread readings fd t' | r ↦ (left r, t') ]
