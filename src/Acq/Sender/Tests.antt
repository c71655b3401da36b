-- ===== src/Acq/Sender/Tests.antt =====
-- `send_acq_data_thread` (acq_data_trans/server.c) at concrete answers of the kernel.
use itrace.Prelude.{ℕ, ◌≡◌, refl, List, [], ◌∷◌, ◌++◌, pos, arith}
use itrace.Posix.{serve, read, write}
use itrace.General.{SystemStatus, running, readn, read_loop, writen, write_loop}
use itrace.Acq.Threads.{System, init, SenderPc}
use itrace.Acq.Threads.Sample.{buffers, one_full, one_full-Reach}
use itrace.Acq.Sender.{
  AcqSender, send_acq_data_thread, send_round, send_buffer, give_back, left, socket_blocked,
}
use itrace.Acq.Sender.Match.{IsFitting, Matches}
use itrace.Acq.Sender.Delivers.{send_acq_data_thread-prefix}
use itrace.Acq.Sender.Refines.{IsRun, send_acq_data_thread-IsRun}

-- Both buffers are full ones; the socket takes a byte, and then no more.
abbrev t : AcqSender
t = record {
  socket_index = record { pending = 1 ∷ 0 ∷ []; answers = serve 0 ∷ serve 0 ∷ [] };
  socket = record { accepted = []; asked = []; answers = serve 0 ∷ [] };
  dma_index = record { accepted = []; asked = []; answers = serve 0 ∷ [] };
  buff_list = buffers;
}

abbrev s : System
s = record init { dma_pipe = []; socket_pipe = 1 ∷ 0 ∷ []; buffer = buffers }

abbrev readings : List SystemStatus
readings = running ∷ running ∷ []

stuck_in_socket : (send_acq_data_thread readings (pos 4) (pos 7) t).0 ≡ left (socket_blocked 0)
unfolding send_acq_data_thread send_round send_buffer give_back readn read_loop writen write_loop
    read write
stuck_in_socket = refl

buffers-IsFitting : (i : ℕ) → IsFitting (buffers i).length
buffers-IsFitting i = ground arith

t-Matches : Matches SenderPc.testing [] t s
t-Matches = record {
  sender = refl;
  socket_pipe = refl;
  dma_pipe = refl;
  buffers = refl;
  sent = refl;
}

send_acq_data_thread-IsRun_example : IsRun s (send_acq_data_thread readings (pos 4) (pos 7) t)
send_acq_data_thread-IsRun_example =
    send_acq_data_thread-IsRun readings (pos 4) (pos 7) t s refl buffers-IsFitting t-Matches

abbrev sender : AcqSender
sender = record {
  socket_index = record { pending = 0 ∷ []; answers = serve 0 ∷ [] };
  socket = record { accepted = []; asked = []; answers = serve 0 ∷ [] };
  dma_index = record { accepted = 1 ∷ []; asked = []; answers = [] };
  buff_list = buffers;
}

send_acq_data_thread-prefix_example :
    (rest : List ℕ) × ((send_acq_data_thread readings (pos 4) (pos 7) sender).1.socket.accepted
        ++ rest
      ≡ 7 ∷ 8 ∷ 9 ∷ [])
send_acq_data_thread-prefix_example =
    send_acq_data_thread-prefix readings (pos 4) (pos 7) sender one_full one_full-Reach refl
      (record { sender = refl; socket_pipe = refl; dma_pipe = refl; buffers = refl; sent = refl })
