-- ===== src/Acq/Reader/Match.antt =====
-- How the states of `read_dma_thread` (acq_data_trans/server.c) stand to those of the relation of the
-- two threads.
use itrace.Prelude.{ℕ, ◌≡◌, ◌∙◌, List, [], ◌++◌, none, some}
use itrace.Acq.Threads.{Buffer, payload, ReaderPc, System, Step}
use itrace.Acq.Reader.{
  DmaReader, Round, again, index_lost, index_blocked, device_lost, device_blocked, pipe_lost,
  pipe_blocked,
}
use itrace.Acq.Threads.Runs.{Steps, prepend}

-- Where the thread stands in the relation when a round has ended so.
abbrev pub pc_of : Round → (ℕ → Buffer) → ReaderPc
pc_of again buffer = ReaderPc.testing
pc_of index_lost buffer = ReaderPc.gone none []
pc_of index_blocked buffer = ReaderPc.waiting
pc_of (device_lost i) buffer = ReaderPc.gone (some i) []
pc_of (device_blocked i) buffer = ReaderPc.got i
pc_of (pipe_lost i) buffer = ReaderPc.gone (some i) (payload (buffer i))
pc_of (pipe_blocked i) buffer = ReaderPc.filled i

-- The state `s` of the relation is that of the code, with the reading thread at `pc`; `stream` is all
-- that the device has delivered or will deliver.
pub record Matches (stream : List ℕ) (pc : ReaderPc) (t : DmaReader) (s : System) : Type 0 where
  pub reader : s.reader ≡ pc
  pub dma_pipe : s.dma_pipe ≡ t.dma_index.pending
  pub socket_pipe : s.socket_pipe ≡ t.socket_index.accepted
  pub buffers : s.buffer ≡ t.buff_list
  pub acquired : s.acquired ++ t.dev.pending ≡ stream

-- From `s` the relation reaches a state that is that of the code; the sending thread has not moved.
pub record Reached (stream : List ℕ) (pc : ReaderPc) (t : DmaReader) (s : System) : Type 0 where
  pub after : System
  pub run : Steps s after
  pub now : Matches stream pc t after
  pub sender : after.sender ≡ s.sender
  pub sent : after.sent ≡ s.sent
  pub status : after.status ≡ s.status

abbrev pub Refined : (stream : List ℕ) → System → Round × DmaReader → Type 0
Refined stream s r = Reached stream (pc_of r.0 r.1.buff_list) r.1 s

-- A first step, and what is reached behind it.
pub from_next :
    (s u : System) (stream : List ℕ) (pc : ReaderPc) (t : DmaReader)
    → Step s u
    → u.sender ≡ s.sender
    → u.sent ≡ s.sent
    → u.status ≡ s.status
    → Reached stream pc t u
    → Reached stream pc t s
from_next s u stream pc t st e1 e2 e3 r = record {
  after = r.after;
  run = prepend st r.run;
  now = r.now;
  sender = r.sender ∙ e1;
  sent = r.sent ∙ e2;
  status = r.status ∙ e3;
}
