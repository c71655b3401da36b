-- ===== src/Acq/Threads/Sample.antt =====
-- A state of the two threads (acq_data_trans/server.c) that the tests share.
use itrace.Prelude.{ℕ, refl, [], ◌∷◌, pos, arith}
use itrace.Acq.Threads.{
  Buffer, System, init, update, Reach, start, next, work, read_on, read_take, read_fill, read_pass,
}

-- Buffer 1 is empty, and buffer 0 holds three bytes.
abbrev pub buffers : ℕ → Buffer
buffers = update init.buffer 0 (record { length = pos 3; bytes = 7 ∷ 8 ∷ 9 ∷ [] })

-- The reading thread has filled buffer 0 and passed it on.
abbrev pub one_full : System
one_full = record init {
  dma_pipe = 1 ∷ [];
  socket_pipe = 0 ∷ [];
  buffer = buffers;
  acquired = 7 ∷ 8 ∷ 9 ∷ [];
}

pub one_full-Reach : Reach one_full
one_full-Reach =
    next
      (next (next (next start (work (read_on refl refl))) (work (read_take refl refl)))
        (work (read_fill (7 ∷ 8 ∷ 9 ∷ []) refl (omega arith))))
      (work (read_pass refl))
