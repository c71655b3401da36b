-- ===== src/Acq/Sender.antt =====
-- acq_data_trans/server.c, `send_acq_data_thread` call by call: an index comes from the pipe of full
-- buffers, that buffer's data goes to the client, and the index goes into the pipe of free buffers.
pub mod Match
pub mod Writes
pub mod Calls
pub mod Rounds
pub mod Refines
pub mod Delivers
mod Tests
use itrace.Prelude.{
  ℕ, zero, suc, List, [], ◌∷◌, Option, none, some, Bool, true, false, if◌then◌else◌, get_or, ℤ, pos,
  negsuc, ◌==ℤ◌,
}
use itrace.Posix.{Source, Sink}
use itrace.General.{SystemStatus, running, stop, readn, writen}
use itrace.Acq.Threads.{Buffer}

-- What the thread works on: its end of the pipe of full buffers, the client's socket, its end of the
-- pipe of free buffers, and `buff_list`.
pub record AcqSender : Type 0 where
  pub socket_index : Source
  pub socket : Sink
  pub dma_index : Sink
  pub buff_list : ℕ → Buffer

-- How a round of the loop ends: with the next test of the status, out of the loop, or in a call that
-- blocks. All but the first three name the buffer in hand.
pub data Round : Type 0 where
  again : Round
  index_lost : Round  -- "read index from socket pipe failed"
  index_blocked : Round
  socket_lost : (buf_index : ℕ) → Round  -- "write to socket failed"
  socket_blocked : (buf_index : ℕ) → Round
  pipe_lost : (buf_index : ℕ) → Round  -- "write index to socket pipe failed"
  pipe_blocked : (buf_index : ℕ) → Round

module _ (socket_fd dma_index_w_fd : ℤ) where
  -- The buffer has been sent, or was empty.
  pub give_back : (buf_index : ℕ) → AcqSender → Round × AcqSender
  give_back buf_index t =
      let w = writen dma_index_w_fd t.dma_index (buf_index ∷ []) 1 in
      let t' : AcqSender = record t { dma_index = w.sink } in
      elim w.ret [
        | none ↦ (pipe_blocked buf_index, t')
        | some ret ↦ (if ret ==ℤ pos 1 then again else pipe_lost buf_index, t')
      ]

  -- `if(curr_dma_buf->length > 0)`, by the length.
  pub send_buffer : (buf_index : ℕ) → (length : ℤ) → AcqSender → Round × AcqSender
  send_buffer buf_index (pos zero) t = give_back buf_index t
  send_buffer buf_index (negsuc n) t = give_back buf_index t
  send_buffer buf_index (pos (suc n)) t =
      let w = writen socket_fd t.socket (t.buff_list buf_index).bytes (suc n) in
      let t' : AcqSender = record t { socket = w.sink } in
      elim w.ret [
        | none ↦ (socket_blocked buf_index, t')
        | some ret ↦
            if ret ==ℤ pos (suc n) then give_back buf_index t' else (socket_lost buf_index, t')
      ]

  pub send_round : AcqSender → Round × AcqSender
  send_round t =
      let r = readn t.socket_index 1 in
      let t' : AcqSender = record t { socket_index = r.left } in
      elim r.ret [
        | none ↦ (index_blocked, t')
        | some ret ↦
            if ret ==ℤ pos 1
            then (let buf_index = get_or r.stored 0 0 in
                send_buffer buf_index (t'.buff_list buf_index).length t')
            else (index_lost, t')
      ]

pub data Outcome : Type 0 where
  looping : Outcome
  stopped : Outcome
  left : Round → Outcome

-- The loop, over the values that the tests of `*(params->sys_status)` read.
pub send_acq_data_thread :
    List SystemStatus → (socket_fd dma_index_w_fd : ℤ) → AcqSender → Outcome × AcqSender
send_acq_data_thread [] fd w_fd t = (looping, t)
send_acq_data_thread (stop ∷ readings) fd w_fd t = (stopped, t)
send_acq_data_thread (running ∷ readings) fd w_fd t =
    let (round, t') = send_round fd w_fd t in
    elim round [ again ↦ send_acq_data_thread readings fd w_fd t' | r ↦ (left r, t') ]
