-- ===== src/Acq/Threads/Stream.antt =====
-- What the two threads of acq_data_trans/server.c promise their client: the bytes of the device, in order,
-- through a channel that holds back what it has not yet delivered.
use itrace.Prelude.{ℕ, ◌≤◌, ◌≡◌, ◌∙◌, sym, List, ◌++◌, length, append_assoc}
use itrace.Acq.Buffers.{max_dma_length}
use itrace.Acq.Threads.{
  System, Work, Fault, Step, Reach, next, read_on, read_stop, read_take, read_fill, read_pass,
  send_on, send_stop, send_take, send_data, send_skip, send_pass, read_take_fails, read_fill_fails,
  read_pass_fails, send_take_fails, send_data_fails, send_pass_fails, work, fault, sigint,
}
use itrace.Acq.Threads.Safety.{sent-prefix}

-- All that has come in, and all that has gone out.
pub record Channel : Type 0 where
  pub arrived : List ℕ
  pub delivered : List ℕ

-- What the channel may do: take in a piece of at most `MAX_DMA_LENGTH` bytes, give out the next bytes that
-- it holds, or nothing.
pub data Move (c : Channel) : Channel → Type 0 where
  arrive :
      (bs : List ℕ) → length bs ≤ max_dma_length → Move c (record c { arrived = c.arrived ++ bs })
  deliver :
      (bs held : List ℕ)
      → c.delivered ++ (bs ++ held) ≡ c.arrived
      → Move c (record c { delivered = c.delivered ++ bs })
  quiet : Move c c

abbrev pub channel : System → Channel
channel s = record { arrived = s.acquired; delivered = s.sent }

delivering :
    (s : System) (bs held : List ℕ)
    → (s.sent ++ bs) ++ held ≡ s.acquired
    → Move (channel s) (record { arrived = s.acquired; delivered = s.sent ++ bs })
delivering s bs held e = deliver bs held (sym (append_assoc s.sent bs held) ∙ e)

Work-Move : {s t : System} → Reach t → Work s t → Move (channel s) (channel t)
Work-Move r (read_on e q) = quiet
Work-Move r (read_stop e q) = quiet
Work-Move r (read_take e q) = quiet
Work-Move r (read_fill bs e le) = arrive bs le
Work-Move r (read_pass e) = quiet
Work-Move r (send_on e q) = quiet
Work-Move r (send_stop e q) = quiet
Work-Move r (send_take e q) = quiet
Work-Move {s} r (send_data e q) = let (held, p) = sent-prefix r in delivering s _ held p
Work-Move r (send_skip e q) = quiet
Work-Move r (send_pass e) = quiet

Fault-Move : {s t : System} → Reach t → Fault s t → Move (channel s) (channel t)
Fault-Move r (read_take_fails e) = quiet
Fault-Move r (read_fill_fails e) = quiet
Fault-Move r (read_pass_fails e) = quiet
Fault-Move r (send_take_fails e) = quiet
Fault-Move {s} r (send_data_fails k e q le) = let (held, p) = sent-prefix r in delivering s _ held p
Fault-Move r (send_pass_fails e) = quiet

-- The two threads implement the channel: in every reachable state, each step of theirs, failures and the
-- signal included, is a move of the channel on what the device has delivered and what the client has been
-- sent.
pub Step-Move : {s t : System} → Reach s → Step s t → Move (channel s) (channel t)
Step-Move r (work w) = Work-Move (next r (work w)) w
Step-Move r (fault f) = Fault-Move (next r (fault f)) f
Step-Move r sigint = quiet
