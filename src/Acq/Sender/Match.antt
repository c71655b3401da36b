-- ===== src/Acq/Sender/Match.antt =====
-- How the states of `send_acq_data_thread` (acq_data_trans/server.c) stand to those of the relation of
-- the two threads.
use itrace.Prelude.{ℕ, ◌≤◌, ◌≡◌, ◌∙◌, List, [], ◌++◌, none, some, take, ℤ, pos, negsuc}
use itrace.Acq.Buffers.{max_dma_length}
use itrace.Acq.Threads.{Buffer, payload, SenderPc, System, Step}
use itrace.Acq.Threads.Runs.{Steps, prepend}
use itrace.Acq.Sender.{
  AcqSender, Round, again, index_lost, index_blocked, socket_lost, socket_blocked, pipe_lost,
  pipe_blocked,
}

-- No length is beyond that of a buffer.
abbrev pub IsFitting : ℤ → Type 0
IsFitting (pos n) = n ≤ max_dma_length
IsFitting (negsuc n) = Unit

-- The state `s` of the relation is that of the code, with the sending thread at `pc`; the socket has
-- taken the bytes `ahead` of a buffer that the relation has not yet sent.
pub record Matches (pc : SenderPc) (ahead : List ℕ) (t : AcqSender) (s : System) : Type 0 where
  pub sender : s.sender ≡ pc
  pub socket_pipe : s.socket_pipe ≡ t.socket_index.pending
  pub dma_pipe : s.dma_pipe ≡ t.dma_index.accepted
  pub buffers : s.buffer ≡ t.buff_list
  pub sent : s.sent ++ ahead ≡ t.socket.accepted

-- Where the thread stands in the relation when a round has ended so, and what has gone ahead.
abbrev pub Stands : Round → (ℕ → Buffer) → SenderPc → List ℕ → Type 0
Stands again buffer pc ahead = (pc ≡ SenderPc.testing) × (ahead ≡ [])
Stands index_lost buffer pc ahead = (pc ≡ SenderPc.gone none []) × (ahead ≡ [])
Stands index_blocked buffer pc ahead = (pc ≡ SenderPc.waiting) × (ahead ≡ [])
Stands (socket_lost i) buffer pc ahead =
    (lost : List ℕ) × (pc ≡ SenderPc.gone (some i) lost) × (ahead ≡ [])
Stands (socket_blocked i) buffer pc ahead =
    (k : ℕ) × (pc ≡ SenderPc.got i) × (ahead ≡ take k (payload (buffer i)))
Stands (pipe_lost i) buffer pc ahead = (pc ≡ SenderPc.gone (some i) []) × (ahead ≡ [])
Stands (pipe_blocked i) buffer pc ahead = (pc ≡ SenderPc.done i) × (ahead ≡ [])

-- From `s` the relation reaches a state that is that of the code; the reading thread has not moved.
pub record Reached (r : Round) (t : AcqSender) (s : System) : Type 0 where
  pub after : System
  pub run : Steps s after
  pub pc : SenderPc
  pub ahead : List ℕ
  pub stands : Stands r t.buff_list pc ahead
  pub now : Matches pc ahead t after
  pub reader : after.reader ≡ s.reader
  pub acquired : after.acquired ≡ s.acquired
  pub status : after.status ≡ s.status

abbrev pub Refined : System → Round × AcqSender → Type 0
Refined s r = Reached r.0 r.1 s

-- A first step, and what is reached behind it.
pub from_next :
    (s u : System) (r : Round × AcqSender)
    → Step s u
    → u.reader ≡ s.reader
    → u.acquired ≡ s.acquired
    → u.status ≡ s.status
    → Refined u r
    → Refined s r
from_next s u r st e1 e2 e3 v = record {
  after = v.after;
  run = prepend st v.run;
  pc = v.pc;
  ahead = v.ahead;
  stands = v.stands;
  now = v.now;
  reader = v.reader ∙ e1;
  acquired = v.acquired ∙ e2;
  status = v.status ∙ e3;
}
