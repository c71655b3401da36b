-- ===== src/Acq/Child.antt =====
-- acq_data_trans/server.c: a child whose set-up is complete. Its two threads share the pipes and buffers
-- that the set-up has handed to them, and take their rounds in any order.
pub mod Rounds
pub mod Turns
pub mod Prefix
mod Tests
use itrace.Prelude.{ℕ, List, [], ◌∷◌, Bool, true, false, ◌==◌, if◌then◌else◌, ℤ, ◌==ℤ◌}
use itrace.Posix.{Answer}
use itrace.General.{SystemStatus, running, stop}
use itrace.Acq.Buffers.{DmaBuffer}
use itrace.Acq.Threads.{Buffer}
use itrace.Acq.Reader.{DmaReader, read_round}
use itrace.Acq.Reader
use itrace.Acq.Sender.{AcqSender, send_round}
use itrace.Acq.Sender
use itrace.Acq.Setup.{Pipe, ReadParams, SendParams}
use itrace.Acq.Setup

-- What the threads share, what the device has yet to deliver, the buffer numbers that it has been told,
-- what the socket has taken, and which of the threads stand at the test of their loop: a thread that has
-- left its loop, or waits in a call for good, takes no further round.
pub record Running : Type 0 where
  pub status : SystemStatus
  pub dma_pipe : List ℕ
  pub socket_pipe : List ℕ
  pub buff_list : ℕ → Buffer
  pub dev : List ℕ
  pub offsets : List ℕ
  pub socket : List ℕ
  pub reading : Bool
  pub sending : Bool

-- A round of a thread, with what the kernel answers to its calls; or the signal.
pub data Turn : Type 0 where
  read_turn : (index device pipe : List Answer) → Turn
  send_turn : (index socket pipe : List Answer) → Turn
  sigint : Turn

-- What the set-up has laid down in a buffer's structure; its bytes are not read before they are written.
abbrev pub made : DmaBuffer → Buffer
made b = record { length = b.length; bytes = [] }

-- What a descriptor stands for.
pub data IndexPipe : Type 0 where
  dma_index_pipe : IndexPipe
  socket_index_pipe : IndexPipe
  no_pipe : IndexPipe

-- The pipe that a descriptor reads from, and the one that it writes to, of the two that `pipe` has made.
pub read_from : (dma sock : Pipe) → (fd : ℤ) → IndexPipe
read_from dma sock fd =
    if fd ==ℤ dma.read_end
    then dma_index_pipe
    else if fd ==ℤ sock.read_end
    then socket_index_pipe
    else no_pipe

pub write_to : (dma sock : Pipe) → (fd : ℤ) → IndexPipe
write_to dma sock fd =
    if fd ==ℤ dma.write_end
    then dma_index_pipe
    else if fd ==ℤ sock.write_end
    then socket_index_pipe
    else no_pipe

abbrev content : IndexPipe → Running → List ℕ
content dma_index_pipe c = c.dma_pipe
content socket_index_pipe c = c.socket_pipe
content no_pipe c = []

abbrev set_content : IndexPipe → List ℕ → Running → Running
set_content dma_index_pipe l c = record c { dma_pipe = l }
set_content socket_index_pipe l c = record c { socket_pipe = l }
set_content no_pipe l c = c

-- The state behind the set-up, with `stream` to come from the device.
pub child_start : ReadParams → SendParams → Setup.Child → (stream : List ℕ) → Running
child_start params sender c stream = record {
  status = running;
  dma_pipe = (c.sinks sender.dma_index_w_fd).accepted;
  socket_pipe = [];
  buff_list = λ i. if i == 0 then made params.buff_0 else made params.buff_1;
  dev = stream;
  offsets = [];
  socket = [];
  reading = true;
  sending = true;
}

pub reader_of : (from to : IndexPipe) → (index device pipe : List Answer) → Running → DmaReader
reader_of from to index device pipe c = record {
  dma_index = record { pending = content from c; answers = index };
  dev = record { pending = c.dev; answers = device };
  offsets = c.offsets;
  socket_index = record { accepted = content to c; asked = []; answers = pipe };
  buff_list = c.buff_list;
}

pub sender_of : (from to : IndexPipe) → (index socket pipe : List Answer) → Running → AcqSender
sender_of from to index socket pipe c = record {
  socket_index = record { pending = content from c; answers = index };
  socket = record { accepted = c.socket; asked = []; answers = socket };
  dma_index = record { accepted = content to c; asked = []; answers = pipe };
  buff_list = c.buff_list;
}

abbrev pub reads_on : Reader.Round → Bool
reads_on Reader.again = true
reads_on _ = false

abbrev pub sends_on : Sender.Round → Bool
sends_on Sender.again = true
sends_on _ = false

pub after_read : (from to : IndexPipe) → Running → Reader.Round × DmaReader → Running
after_read from to c (round, t) = set_content to t.socket_index.accepted (
    set_content from t.dma_index.pending (record c {
      buff_list = t.buff_list;
      dev = t.dev.pending;
      offsets = t.offsets;
      reading = reads_on round;
    }))

pub after_send : (from to : IndexPipe) → Running → Sender.Round × AcqSender → Running
after_send from to c (round, t) = set_content to t.dma_index.accepted (
    set_content from t.socket_index.pending
      (record c { socket = t.socket.accepted; sending = sends_on round }))

-- The calls of a thread go to the pipes of the descriptors that the set-up has handed to it.
pub turn : (dma sock : Pipe) → ReadParams → SendParams → Turn → Running → Running
unfolding read_from write_to reader_of sender_of after_read after_send
turn dma sock r p (read_turn index device pipe) c = elim c.reading [
  | false ↦ c
  | true ↦ elim c.status [
    | stop ↦ record c { reading = false }
    | running ↦
        let from = read_from dma sock r.dma_index_r_fd in
        let to = write_to dma sock r.socket_index_w_fd in
        after_read from to c
          (read_round r.socket_index_w_fd (reader_of from to index device pipe c))
  ]
]
turn dma sock r p (send_turn index socket pipe) c = elim c.sending [
  | false ↦ c
  | true ↦ elim c.status [
    | stop ↦ record c { sending = false }
    | running ↦
        let from = read_from dma sock p.socket_index_r_fd in
        let to = write_to dma sock p.dma_index_w_fd in
        after_send from to c
          (send_round p.socket_fd p.dma_index_w_fd (sender_of from to index socket pipe c))
  ]
]
turn dma sock r p sigint c = record c { status = stop }

pub run : (dma sock : Pipe) → ReadParams → SendParams → List Turn → Running → Running
run dma sock r p [] c = c
run dma sock r p (t ∷ turns) c = run dma sock r p turns (turn dma sock r p t c)
