-- ===== src/Acq/Threads.antt =====
-- acq_data_trans/server.c: `read_dma_thread` and `send_acq_data_thread`, interleaved in any order.
-- They hand the indices of two buffers to one another through two pipes. A step is one system call
-- (or one test of the system's status) of one thread; `sigint` is the signal handler's write.
pub mod Invariant
pub mod Safety
pub mod Runs
pub mod Stream
pub mod Sample
mod Tests
use itrace.Prelude.{
  ℕ, zero, suc, ◌+◌, ◌≤◌, ◌<◌, ◌≡◌, ◌==◌, if◌then◌else◌, Bool, true, false, Option, none, some,
  List, [], ◌∷◌, ◌++◌, length, take, drop, ℤ, pos, negsuc, minus_one, is_pos,
}
use itrace.General.{SystemStatus, running, stop}
use itrace.Acq.Buffers.{max_dma_length}

-- What the threads share of a `struct DmaBuffer`: `length` and the bytes at `data`.
pub record Buffer : Type 0 where
  pub length : ℤ
  pub bytes : List ℕ

-- What a buffer holds for the client: nothing if its length is not positive.
abbrev pub payload : Buffer → List ℕ
payload b = elim b.length [ pos n ↦ take n b.bytes | negsuc n ↦ [] ]

-- Where `read_dma_thread` stands. A thread that has left its loop keeps the index that it had not
-- passed on, and the bytes that it had read and not passed on.
pub data ReaderPc : Type 0 where
  testing : ReaderPc  -- before `*(params->sys_status) != Stop`
  waiting : ReaderPc  -- in `readn` on the pipe of free buffers
  got : (i : ℕ) → ReaderPc  -- before the `read` of the device
  filled : (i : ℕ) → ReaderPc  -- before the `writen` to the pipe of full buffers
  gone : (kept : Option ℕ) → (lost : List ℕ) → ReaderPc

-- Where `send_acq_data_thread` stands.
pub data SenderPc : Type 0 where
  testing : SenderPc
  waiting : SenderPc  -- in `readn` on the pipe of full buffers
  got : (i : ℕ) → SenderPc  -- before the `writen` to the socket
  done : (i : ℕ) → SenderPc  -- before the `writen` to the pipe of free buffers
  gone : (kept : Option ℕ) → (lost : List ℕ) → SenderPc

-- Both threads, the two pipes and the buffers; `acquired` is all that the device has delivered, and
-- `sent` all that the socket has taken.
pub record System : Type 0 where
  pub status : SystemStatus
  pub dma_pipe : List ℕ
  pub socket_pipe : List ℕ
  pub buffer : ℕ → Buffer
  pub reader : ReaderPc
  pub sender : SenderPc
  pub acquired : List ℕ
  pub sent : List ℕ

abbrev pub update {ℓ} : {A : Type ℓ} → (ℕ → A) → ℕ → A → ℕ → A
update f i a j = if i == j then a else f j

-- A step in which every call succeeds.
pub data Work (s : System) : System → Type 0 where
  -- read_dma_thread
  read_on :
      s.reader ≡ ReaderPc.testing
      → s.status ≡ running
      → Work s (record s { reader = ReaderPc.waiting })
  read_stop :
      s.reader ≡ ReaderPc.testing
      → s.status ≡ stop
      → Work s (record s { reader = ReaderPc.gone none [] })
  read_take :
      {i : ℕ} {rest : List ℕ}
      → s.reader ≡ ReaderPc.waiting
      → s.dma_pipe ≡ i ∷ rest
      → Work s (record s { reader = ReaderPc.got i; dma_pipe = rest })
  -- `read` stores at most `MAX_DMA_LENGTH` bytes, perhaps none.
  read_fill :
      {i : ℕ} (bs : List ℕ)
      → s.reader ≡ ReaderPc.got i
      → length bs ≤ max_dma_length
      → Work s (record s {
        reader = ReaderPc.filled i;
        buffer = update s.buffer i (record { length = pos (length bs); bytes = bs });
        acquired = s.acquired ++ bs;
      })
  read_pass :
      {i : ℕ}
      → s.reader ≡ ReaderPc.filled i
      → Work s (record s { reader = ReaderPc.testing; socket_pipe = s.socket_pipe ++ i ∷ [] })
  -- send_acq_data_thread
  send_on :
      s.sender ≡ SenderPc.testing
      → s.status ≡ running
      → Work s (record s { sender = SenderPc.waiting })
  send_stop :
      s.sender ≡ SenderPc.testing
      → s.status ≡ stop
      → Work s (record s { sender = SenderPc.gone none [] })
  send_take :
      {i : ℕ} {rest : List ℕ}
      → s.sender ≡ SenderPc.waiting
      → s.socket_pipe ≡ i ∷ rest
      → Work s (record s { sender = SenderPc.got i; socket_pipe = rest })
  -- `writen` to the socket returns the length.
  send_data :
      {i n : ℕ}
      → s.sender ≡ SenderPc.got i
      → (s.buffer i).length ≡ pos (suc n)
      → Work s
          (record s { sender = SenderPc.done i; sent = s.sent ++ take (suc n) (s.buffer i).bytes })
  send_skip :
      {i : ℕ}
      → s.sender ≡ SenderPc.got i
      → is_pos (s.buffer i).length ≡ false
      → Work s (record s { sender = SenderPc.done i })
  send_pass :
      {i : ℕ}
      → s.sender ≡ SenderPc.done i
      → Work s (record s { sender = SenderPc.testing; dma_pipe = s.dma_pipe ++ i ∷ [] })

-- A step in which a call fails, and the thread leaves its loop.
pub data Fault (s : System) : System → Type 0 where
  read_take_fails :
      s.reader ≡ ReaderPc.waiting → Fault s (record s { reader = ReaderPc.gone none [] })
  read_fill_fails :
      {i : ℕ}
      → s.reader ≡ ReaderPc.got i
      → Fault s (record s {
        reader = ReaderPc.gone (some i) [];
        buffer = update s.buffer i (record { length = minus_one; bytes = (s.buffer i).bytes });
      })
  read_pass_fails :
      {i : ℕ}
      → s.reader ≡ ReaderPc.filled i
      → Fault s (record s { reader = ReaderPc.gone (some i) (payload (s.buffer i)) })
  send_take_fails :
      s.sender ≡ SenderPc.waiting → Fault s (record s { sender = SenderPc.gone none [] })
  -- `writen` fails after `k` bytes.
  send_data_fails :
      {i n : ℕ} (k : ℕ)
      → s.sender ≡ SenderPc.got i
      → (s.buffer i).length ≡ pos (suc n)
      → k ≤ n
      → Fault s (record s {
        sender = SenderPc.gone (some i) (drop k (payload (s.buffer i)));
        sent = s.sent ++ take k (payload (s.buffer i));
      })
  send_pass_fails :
      {i : ℕ}
      → s.sender ≡ SenderPc.done i
      → Fault s (record s { sender = SenderPc.gone (some i) [] })

pub data Step (s : System) : System → Type 0 where
  work : {t : System} → Work s t → Step s t
  fault : {t : System} → Fault s t → Step s t
  sigint : Step s (record s { status = stop })

-- When the two threads start, both indices are in the pipe of free buffers, and the lengths are 0.
abbrev pub init : System
init = record {
  status = running;
  dma_pipe = 0 ∷ 1 ∷ [];
  socket_pipe = [];
  buffer = λ i. record { length = pos 0; bytes = [] };
  reader = ReaderPc.testing;
  sender = SenderPc.testing;
  acquired = [];
  sent = [];
}

pub data Reach : System → Type 0 where
  start : Reach init
  next : {s t : System} → Reach s → Step s t → Reach t
