-- ===== src/Acq/Child/Tests.antt =====
-- A child of acq_data_trans (acq_data_trans/server.c) and its threads at concrete inputs.
use itrace.Prelude.{◌≡◌, refl, List, [], ◌∷◌, some, true, pos}
use itrace.Posix.{serve, write}
use itrace.General.{writen, write_loop}
use itrace.Acq.Buffers.{init_dma_read_buffer}
use itrace.Acq.Setup.{
  Pipe, Calls, ready, open_dma_device, set_up_child, set_up_from, map_area, make_buffers,
  make_pipes, write_indices, after_indices, start_threads,
}
use itrace.Acq.Child.{Turn, read_turn, send_turn, sigint}
use itrace.Acq.Child.Prefix.{IsSentPrefix, set_up_child-prefix}

abbrev dma : Pipe
dma = record { read_end = pos 6; write_end = pos 7 }

abbrev sock : Pipe
sock = record { read_end = pos 8; write_end = pos 9 }

abbrev calls : Calls
calls = record {
  opened = pos 5;
  area = some 4096;
  allocated_0 = true;
  allocated_1 = true;
  dma_index_pipe = some dma;
  socket_index_pipe = some sock;
  sinks = λ fd. record { accepted = []; asked = []; answers = serve 0 ∷ serve 3 ∷ [] };
  reader_created = true;
  sender_created = true;
  clear_created = true;
}

calls-ready : (set_up_child (pos 4) calls).end ≡ ready
unfolding set_up_child set_up_from open_dma_device map_area make_buffers make_pipes write_indices
    after_indices start_threads init_dma_read_buffer writen write_loop write
calls-ready = refl

-- Both buffers are filled before the first is sent, a byte at a time.
abbrev turns : List Turn
turns =
    read_turn (serve 0 ∷ []) (serve 1 ∷ []) (serve 0 ∷ [])
    ∷ read_turn (serve 0 ∷ []) (serve 2 ∷ []) (serve 0 ∷ [])
    ∷ send_turn (serve 0 ∷ []) (serve 0 ∷ serve 0 ∷ []) (serve 0 ∷ [])
    ∷ sigint
    ∷ []

set_up_child-prefix_example :
    IsSentPrefix dma sock
      (set_up_child (pos 4) calls)
      (open_dma_device (pos 5)).1
      turns
      (1 ∷ 2 ∷ 3 ∷ 4 ∷ 5 ∷ [])
set_up_child-prefix_example =
    set_up_child-prefix (pos 4) calls dma sock (1 ∷ 2 ∷ 3 ∷ 4 ∷ 5 ∷ []) turns refl refl refl refl
      refl calls-ready
