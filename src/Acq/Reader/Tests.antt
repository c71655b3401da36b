-- ===== src/Acq/Reader/Tests.antt =====
-- `read_dma_thread` (acq_data_trans/server.c) at concrete answers of the kernel.
use itrace.Prelude.{inr, arith, ◌≡◌, refl, List, [], ◌∷◌, pos}
use itrace.Posix.{serve, refuse, eintr, read, write}
use itrace.General.{SystemStatus, running, readn, read_loop, writen, write_loop}
use itrace.Acq.Threads.{init, ReaderPc}
use itrace.Acq.Threads.Sample.{buffers, one_full, one_full-Reach}
use itrace.Acq.Reader.Spares.{read_dma_thread-spares}
use itrace.Acq.Reader.{
  DmaReader, read_dma_thread, read_round, fill_buffer, pass_index, left, device_lost,
}
use itrace.Acq.Reader.Match.{Matches}
use itrace.Acq.Reader.Refines.{IsRun, read_dma_thread-IsRun}

-- Both indices are free; the device gives two bytes, and is interrupted in the second round.
abbrev t : DmaReader
t = record {
  dma_index = record { pending = 0 ∷ 1 ∷ []; answers = serve 0 ∷ serve 0 ∷ [] };
  dev = record { pending = 7 ∷ 8 ∷ 9 ∷ []; answers = serve 1 ∷ refuse eintr ∷ serve 5 ∷ [] };
  offsets = [];
  socket_index = record { accepted = []; asked = []; answers = serve 0 ∷ [] };
  buff_list = init.buffer;
}

abbrev readings : List SystemStatus
readings = running ∷ running ∷ running ∷ []

-- An interrupted `read` of the device ends the thread.
interrupted : (read_dma_thread readings (pos 9) t).0 ≡ left (device_lost 1)
unfolding read_dma_thread read_round fill_buffer pass_index readn read_loop writen write_loop read
    write
interrupted = refl

t-Matches : Matches (7 ∷ 8 ∷ 9 ∷ []) ReaderPc.testing t init
t-Matches = record {
  reader = refl;
  dma_pipe = refl;
  socket_pipe = refl;
  buffers = refl;
  acquired = refl;
}

read_dma_thread-IsRun_example : IsRun (7 ∷ 8 ∷ 9 ∷ []) init (read_dma_thread readings (pos 9) t)
read_dma_thread-IsRun_example =
    read_dma_thread-IsRun (7 ∷ 8 ∷ 9 ∷ []) readings (pos 9) t init refl t-Matches

-- Buffer 0 is on its way to the client while buffer 1 is filled.
abbrev reader : DmaReader
reader = record t {
  dma_index = record { pending = 1 ∷ []; answers = serve 0 ∷ [] };
  dev = record { pending = 4 ∷ 5 ∷ []; answers = serve 1 ∷ [] };
  socket_index = record { accepted = 0 ∷ []; asked = []; answers = serve 0 ∷ [] };
  buff_list = buffers;
}

read_dma_thread-spares_example : (read_dma_thread readings (pos 9) reader).1.buff_list 0 ≡ buffers 0
read_dma_thread-spares_example =
    read_dma_thread-spares readings (pos 9) (7 ∷ 8 ∷ 9 ∷ 4 ∷ 5 ∷ []) reader one_full 0
      one_full-Reach
      (record {
        reader = refl;
        dma_pipe = refl;
        socket_pipe = refl;
        buffers = refl;
        acquired = refl;
      })
      (inr (omega arith))
