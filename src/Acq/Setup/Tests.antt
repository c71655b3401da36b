-- ===== src/Acq/Setup/Tests.antt =====
-- The set-up of a child of acq_data_trans at concrete results of its calls.
use itrace.Prelude.{◌≡◌, refl, [], ◌∷◌, some, true, false, pos}
use itrace.Posix.{serve}
use itrace.Acq.Buffers.{init_dma_read_buffer}
use itrace.Acq.Setup.{
  Calls, set_up_child, set_up_from, open_dma_device, map_area, make_buffers, soft_reset, unmap,
}
use itrace.Acq.Setup.Laws.{IsSetUp, set_up_child-IsSetUp}

-- All calls succeed, and the pipe takes one index at a time.
abbrev calls : Calls
calls = record {
  opened = pos 5;
  area = some 4096;
  allocated_0 = true;
  allocated_1 = true;
  dma_index_pipe = some record { read_end = pos 6; write_end = pos 7 };
  socket_index_pipe = some record { read_end = pos 8; write_end = pos 9 };
  sinks = λ fd. record { accepted = []; asked = []; answers = serve 0 ∷ serve 0 ∷ [] };
  reader_created = true;
  sender_created = true;
  clear_created = true;
}

-- The second buffer is not allocated.
no_buffer :
    (set_up_child (pos 4) (record calls { allocated_1 = false })).effects
    ≡ soft_reset (pos 5) ∷ unmap 4096 ∷ []
unfolding set_up_child set_up_from open_dma_device map_area make_buffers init_dma_read_buffer
no_buffer = refl

set_up_child-IsSetUp_example : IsSetUp (pos 4) calls (set_up_child (pos 4) calls)
set_up_child-IsSetUp_example = set_up_child-IsSetUp (pos 4) calls
