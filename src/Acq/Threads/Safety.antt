-- ===== src/Acq/Threads/Safety.antt =====
-- What holds in every reachable state of the two threads of the acquisition child.
use itrace.Prelude.{
  ℕ, zero, suc, ◌+◌, ◌≤◌, ◌<◌, ◌≡◌, ◌≢◌, refl, sym, ap, ◌∙◌, Bool, true, false, Option, none, some,
  List, [], ◌∷◌, ◌++◌, append-nil, length, count, ℤ, pos, negsuc, arith,
}
use itrace.General.{SystemStatus, running, stop}
use itrace.Acq.Threads.{
  Buffer, payload, ReaderPc, SenderPc, System, Work, Reach, read_on, read_stop, read_take,
  read_fill, read_pass, send_on, send_stop, send_take, send_data, send_skip, send_pass,
}
use itrace.Acq.Threads.Invariant.{Inv, pipe_bytes, reader_bytes, sender_bytes, Reach-Inv}

-- The buffer that the reader works on, and the one that the sender works on.
abbrev reader_uses : ReaderPc → Option ℕ
reader_uses (ReaderPc.got i) = some i
reader_uses (ReaderPc.filled i) = some i
reader_uses _ = none

abbrev pub sender_uses : SenderPc → Option ℕ
sender_uses (SenderPc.got i) = some i
sender_uses (SenderPc.done i) = some i
sender_uses _ = none

-- In every reachable state, the buffer that the reading thread works on and the one that the
-- sending thread works on are different, and both are entries of the two-element buffer lists.
pub no_race :
    {s : System} {i j : ℕ}
    → Reach s
    → reader_uses s.reader ≡ some i
    → sender_uses s.sender ≡ some j
    → (i ≢ j) × (i < 2) × (j < 2)
no_race {s} {i} {j} r er es = ground (arith, (Reach-Inv r).tokens i, (Reach-Inv r).tokens j)

-- In every reachable state, what the client has been sent is a prefix of what the device has
-- delivered: nothing is lost between two bytes sent, doubled or reordered, whatever fails.
pub sent-prefix : {s : System} → Reach s → (rest : List ℕ) × (s.sent ++ rest ≡ s.acquired)
sent-prefix {s} r = (_, (Reach-Inv r).flow)

-- So is that and the buffer that the sending thread is about to send.
pub sent-in_hand :
    {s : System} {i : ℕ}
    → Reach s
    → s.sender ≡ SenderPc.got i
    → (rest : List ℕ) × (s.sent ++ (payload (s.buffer i) ++ rest) ≡ s.acquired)
sent-in_hand {s} {i} r e = (
  _,
  ap
        (λ pc.
          s.sent
          ++ (sender_bytes s.buffer pc
              ++ (pipe_bytes s.buffer s.socket_pipe ++ reader_bytes s.buffer s.reader)))
        (sym e)
      ∙ (Reach-Inv r).flow,
)

abbrev reader_alive : ReaderPc → Bool
reader_alive (ReaderPc.gone kept lost) = false
reader_alive _ = true

abbrev sender_alive : SenderPc → Bool
sender_alive (SenderPc.gone kept lost) = false
sender_alive _ = true

module _ (s : System) where
  status-Work :
      (t u : System)
      → (s.status ≡ running → Work s t)
      → (s.status ≡ stop → Work s u)
      → (v : System) × Work s v
  status-Work t u on off = go s.status refl
    where
      go : (x : SystemStatus) → s.status ≡ x → (v : System) × Work s v
      go running e = (t, on e)
      go stop e = (u, off e)

  length-Work :
      (i : ℕ)
      → s.sender ≡ SenderPc.got i
      → (l : ℤ) → (s.buffer i).length ≡ l
      → (v : System) × Work s v
  length-Work i e (pos zero) el = (_, send_skip e (ground arith))
  length-Work i e (pos (suc n)) el = (_, send_data e el)
  length-Work i e (negsuc n) el = (_, send_skip e (ground arith))

  -- The sender can work, unless it waits on an empty pipe.
  sender-Work :
      (pc : SenderPc)
      → s.sender ≡ pc
      → sender_alive pc ≡ true
      → (pipe : List ℕ) → s.socket_pipe ≡ pipe
      → (pc ≡ SenderPc.waiting → pipe ≢ [])
      → (v : System) × Work s v
  sender-Work SenderPc.testing e a pipe ep h =
      status-Work _ _ (λ r. send_on e r) (λ r. send_stop e r)
  sender-Work SenderPc.waiting e a [] ep h = absurd (h refl refl)
  sender-Work SenderPc.waiting e a (i ∷ p) ep h = (_, send_take e ep)
  sender-Work (SenderPc.got i) e a pipe ep h = length-Work i e (s.buffer i).length refl
  sender-Work (SenderPc.done i) e a pipe ep h = (_, send_pass e)
  sender-Work (SenderPc.gone kept lost) e a pipe ep h = cc

  -- So can the reader, or the sender while the reader waits on an empty pipe.
  reader-Work :
      Inv s
      → sender_alive s.sender ≡ true
      → (pc : ReaderPc) → s.reader ≡ pc
      → reader_alive pc ≡ true
      → (pipe : List ℕ) → s.dma_pipe ≡ pipe
      → (v : System) × Work s v
  reader-Work inv al ReaderPc.testing e a pipe ep =
      status-Work _ _ (λ r. read_on e r) (λ r. read_stop e r)
  reader-Work inv al ReaderPc.waiting e a [] ep =
      sender-Work s.sender refl al s.socket_pipe refl (λ w q. ground (arith, inv.tokens 0))
  reader-Work inv al ReaderPc.waiting e a (i ∷ p) ep = (_, read_take e ep)
  reader-Work inv al (ReaderPc.got i) e a pipe ep = (_, read_fill [] e (omega arith))
  reader-Work inv al (ReaderPc.filled i) e a pipe ep = (_, read_pass e)
  reader-Work inv al (ReaderPc.gone kept lost) e a pipe ep = cc

-- The threads do not deadlock: in every reachable state in which neither has left its loop, one of
-- them has a step in which its call succeeds.
pub no_deadlock :
    {s : System}
    → Reach s
    → reader_alive s.reader ≡ true
    → sender_alive s.sender ≡ true
    → (t : System) × Work s t
no_deadlock {s} r ra sa = reader-Work s (Reach-Inv r) sa s.reader refl ra s.dma_pipe refl

sender_bytes-nil :
    (buffer : ℕ → Buffer) (pc : SenderPc)
    → sender_alive pc ≡ true
    → ((i : ℕ) → pc ≢ SenderPc.got i)
    → sender_bytes buffer pc ≡ []
sender_bytes-nil buffer SenderPc.testing a h = refl
sender_bytes-nil buffer SenderPc.waiting a h = refl
sender_bytes-nil buffer (SenderPc.got i) a h = absurd (h i refl)
sender_bytes-nil buffer (SenderPc.done i) a h = refl
sender_bytes-nil buffer (SenderPc.gone kept lost) a h = cc

reader_bytes-nil :
    (buffer : ℕ → Buffer) (pc : ReaderPc)
    → reader_alive pc ≡ true
    → ((i : ℕ) → pc ≢ ReaderPc.filled i)
    → reader_bytes buffer pc ≡ []
reader_bytes-nil buffer ReaderPc.testing a h = refl
reader_bytes-nil buffer ReaderPc.waiting a h = refl
reader_bytes-nil buffer (ReaderPc.got i) a h = refl
reader_bytes-nil buffer (ReaderPc.filled i) a h = absurd (h i refl)
reader_bytes-nil buffer (ReaderPc.gone kept lost) a h = cc

-- All that the device delivered has been sent, when no full buffer is under way and both threads
-- are in their loops.
sent-all :
    {s : System}
    → Reach s
    → reader_alive s.reader ≡ true
    → sender_alive s.sender ≡ true
    → s.socket_pipe ≡ []
    → ((i : ℕ) → s.sender ≢ SenderPc.got i)
    → ((i : ℕ) → s.reader ≢ ReaderPc.filled i)
    → s.sent ≡ s.acquired
sent-all {s} r ra sa p ns nr = ground (
  arith,
  (Reach-Inv r).flow,
  sender_bytes-nil s.buffer s.sender sa ns,
  reader_bytes-nil s.buffer s.reader ra nr,
  append-nil s.sent,
)

-- every element is below 2
length-pipe : (p : List ℕ) → ((i : ℕ) → 2 ≤ i → count i p ≡ 0) → length p ≡ count 0 p + count 1 p
length-pipe [] h = omega arith
length-pipe (x ∷ p) h = ground (arith, h x, length-pipe p (λ i le. ground (arith, h i le)))

-- In every reachable state the two pipes together hold at most two indices of one byte, so that a
-- write to a pipe never waits for room.
pipes-le : {s : System} → Reach s → length s.dma_pipe + length s.socket_pipe ≤ 2
pipes-le {s} r =
    let inv = Reach-Inv r in
    omega (
      arith,
      inv.tokens 0,
      inv.tokens 1,
      length-pipe s.dma_pipe (λ i le. ground (arith, inv.tokens i)),
      length-pipe s.socket_pipe (λ i le. ground (arith, inv.tokens i)),
    )
