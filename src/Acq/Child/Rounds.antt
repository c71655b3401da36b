-- ===== src/Acq/Child/Rounds.antt =====
-- What holds of a child of acq_data_trans (acq_data_trans/server.c) when a round of one of its threads
-- has ended.
use itrace.Prelude.{ℕ, ◌≡◌, sym, ap, ◌∙◌, List, ◌++◌, Bool, true, false, append_assoc, append-nil}
use itrace.Acq.Threads.{Buffer, ReaderPc, SenderPc, System, Reach}
use itrace.Acq.Reader
use itrace.Acq.Reader.{DmaReader, read_round}
use itrace.Acq.Reader.Match.{Refined as ReaderRefined, pc_of}
use itrace.Acq.Sender
use itrace.Acq.Sender.{AcqSender, send_round}
use itrace.Acq.Sender.Match.{Matches as SenderMatches, Refined as SenderRefined, Stands}
use itrace.Acq.Sender.Delivers.{steps-Reach, stands-prefix}
use itrace.Acq.Child.{
  dma_index_pipe, socket_index_pipe, Running, reads_on, sends_on, after_read, after_send,
}

abbrev pub When {ℓ} : Bool → Type ℓ → Type ℓ
When true A = A
When false A = Unit

-- What the socket has taken is the data sent, or, once the thread has left its loop, a prefix of the stream.
abbrev pub SentSo : (sending : Bool) → (stream socket : List ℕ) → System → Type 0
SentSo true stream socket s = (s.sender ≡ SenderPc.testing) × (s.sent ≡ socket)
SentSo false stream socket s = (rest : List ℕ) × (socket ++ rest ≡ stream)

-- The child is in a state that the two threads can reach.
pub record Holds (stream : List ℕ) (c : Running) : Type 0 where
  pub at : System
  pub reach : Reach at
  pub status : at.status ≡ c.status
  pub dma_pipe : at.dma_pipe ≡ c.dma_pipe
  pub socket_pipe : at.socket_pipe ≡ c.socket_pipe
  pub buffers : at.buffer ≡ c.buff_list
  pub acquired : at.acquired ++ c.dev ≡ stream
  pub reader : When c.reading (at.reader ≡ ReaderPc.testing)
  pub sent : SentSo c.sending stream c.socket at

reads_on-test :
    (r : Reader.Round) (buffer : ℕ → Buffer) (pc : ReaderPc)
    → pc ≡ pc_of r buffer
    → When (reads_on r) (pc ≡ ReaderPc.testing)
reads_on-test Reader.again buffer pc e = e
reads_on-test Reader.index_lost buffer pc e = tt
reads_on-test Reader.index_blocked buffer pc e = tt
reads_on-test (Reader.device_lost i) buffer pc e = tt
reads_on-test (Reader.device_blocked i) buffer pc e = tt
reads_on-test (Reader.pipe_lost i) buffer pc e = tt
reads_on-test (Reader.pipe_blocked i) buffer pc e = tt

pub SentSo-kept :
    (sending : Bool) (stream socket : List ℕ) (s u : System)
    → u.sender ≡ s.sender
    → u.sent ≡ s.sent
    → SentSo sending stream socket s
    → SentSo sending stream socket u
SentSo-kept true stream socket s u e f h = (e ∙ h.0, f ∙ h.1)
SentSo-kept false stream socket s u e f h = h

pub after_read-Holds :
    (stream : List ℕ) (c : Running) (q : Reader.Round × DmaReader) (h : Holds stream c)
    → ReaderRefined stream h.at q
    → Holds stream (after_read dma_index_pipe socket_index_pipe c q)
unfolding after_read
after_read-Holds stream c (round, t) h v = record {
  at = v.after;
  reach = steps-Reach h.reach v.run;
  status = v.status ∙ h.status;
  dma_pipe = v.now.dma_pipe;
  socket_pipe = v.now.socket_pipe;
  buffers = v.now.buffers;
  acquired = v.now.acquired;
  reader = reads_on-test round t.buff_list v.after.reader v.now.reader;
  sent = SentSo-kept c.sending stream c.socket h.at v.after v.sender v.sent h.sent;
}

pub When-kept :
    (reading : Bool) (s u : System)
    → u.reader ≡ s.reader
    → When reading (s.reader ≡ ReaderPc.testing)
    → When reading (u.reader ≡ ReaderPc.testing)
When-kept true s u e h = e ∙ h
When-kept false s u e h = tt

-- A prefix of the data acquired is one of the stream.
pub in_stream :
    (socket acquired dev stream : List ℕ)
    → (rest : List ℕ) × (socket ++ rest ≡ acquired)
    → acquired ++ dev ≡ stream
    → (rest : List ℕ) × (socket ++ rest ≡ stream)
in_stream socket acquired dev stream (rest, p) e =
    (rest ++ dev, sym (append_assoc socket rest dev) ∙ ap (λ a. a ++ dev) p ∙ e)

sends_on-SentSo :
    (round : Sender.Round) (t : AcqSender) (u : System) (pc : SenderPc) (ahead dev stream : List ℕ)
    → Reach u
    → Stands round t.buff_list pc ahead
    → SenderMatches pc ahead t u
    → u.acquired ++ dev ≡ stream
    → SentSo (sends_on round) stream t.socket.accepted u
sends_on-SentSo round t u pc ahead dev stream r st m a = go round st
  where
    over :
        (round : Sender.Round)
        → Stands round t.buff_list pc ahead
        → (rest : List ℕ) × (t.socket.accepted ++ rest ≡ stream)
    over round st =
        in_stream t.socket.accepted u.acquired dev stream
          (stands-prefix (Sender.left round) t u pc ahead r st m) a

    go :
        (round : Sender.Round)
        → Stands round t.buff_list pc ahead
        → SentSo (sends_on round) stream t.socket.accepted u
    go Sender.again st =
        (m.sender ∙ st.0, sym (append-nil u.sent) ∙ ap (λ a. u.sent ++ a) (sym st.1) ∙ m.sent)
    go Sender.index_lost st = over Sender.index_lost st
    go Sender.index_blocked st = over Sender.index_blocked st
    go (Sender.socket_lost i) st = over (Sender.socket_lost i) st
    go (Sender.socket_blocked i) st = over (Sender.socket_blocked i) st
    go (Sender.pipe_lost i) st = over (Sender.pipe_lost i) st
    go (Sender.pipe_blocked i) st = over (Sender.pipe_blocked i) st

pub after_send-Holds :
    (stream : List ℕ) (c : Running) (q : Sender.Round × AcqSender) (h : Holds stream c)
    → q.1.buff_list ≡ c.buff_list
    → SenderRefined h.at q
    → Holds stream (after_send socket_index_pipe dma_index_pipe c q)
unfolding after_send
after_send-Holds stream c (round, t) h same v =
    let r = steps-Reach h.reach v.run in
    let a = ap (λ l. l ++ c.dev) v.acquired ∙ h.acquired in
    record {
      at = v.after;
      reach = r;
      status = v.status ∙ h.status;
      dma_pipe = v.now.dma_pipe;
      socket_pipe = v.now.socket_pipe;
      buffers = v.now.buffers ∙ same;
      acquired = a;
      reader = When-kept c.reading h.at v.after v.reader h.reader;
      sent = sends_on-SentSo round t v.after v.pc v.ahead c.dev stream r v.stands v.now a;
    }
