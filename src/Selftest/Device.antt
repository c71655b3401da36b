-- ===== src/Selftest/Device.antt =====
-- acq_data_trans/test.c and cmd_status_trans/test.c: the tests from the opening of the device to the end of
-- their loops. What they print, and `print_control_cnt`, which only rules that, is left out; their `int` sums are
-- numbers, as they are in C below 2 ^ 31.
pub mod Stdin
pub mod Counts
pub mod Loops
mod Tests
use itrace.Prelude.{
  ℕ, zero, suc, ◌+◌, List, [], ◌∷◌, Option, none, some, Bool, true, false, not, if◌then◌else◌, drop,
  length, ℤ, pos, is_pos, is_neg, ◌==ℤ◌,
}
use itrace.Posix.{Answer, Source, Sink, read, got, failed}
use itrace.Acq.Buffers.{max_dma_length}
use itrace.Acq.Setup.{open_dma_device}
use itrace.Cmd.Device.{writen_to_cmd_status_dev}
use itrace.Cmd.Setup.{open_cmd_status_device}
use itrace.Selftest.{read_test}

-- What the `while (1)` loop around `read` has got when a `read` fails (`is_over`) or blocks.
pub record Reads : Type 0 where
  pub pieces : List (List ℕ)
  pub is_over : Bool
  pub left : Source

-- A `read` of up to `max` bytes for each answer.
pub read_pieces : (max : ℕ) → (pending : List ℕ) → List Answer → Reads
read_pieces max pending [] = record {
  pieces = [];
  is_over = false;
  left = record { pending = pending; answers = [] };
}
read_pieces max pending (a ∷ r) = elim (read a max pending) [
  | got bs ↦
      let rest = read_pieces max (drop (length bs) pending) r in
      record { pieces = bs ∷ rest.pieces; is_over = rest.is_over; left = rest.left }
  | failed e ↦ record {
    pieces = [];
    is_over = true;
    left = record { pending = pending; answers = r };
  }
]

-- How a test stands.
pub data Tested : Type 0 where
  exited : Tested  -- by `exit(0)`, before the loop
  writing : Tested  -- in the `write` of the command
  no_memory : Tested
  tested : (err_cnt_sum : ℕ) → (is_over : Bool) → Tested

-- `read_dma_test`, by what `open` and `mmap` give; `junk` stands before the area.
pub read_dma_test : (opened : ℤ) → (area : Option ℕ) → (junk : ℕ) → Source → Tested × Source
unfolding read_pieces
read_dma_test opened area junk dev =
    let (dma_fd, opening) = open_dma_device opened in
    if is_neg dma_fd then (exited, dev) else elim area [
      | none ↦ (exited, dev)
      | some start_addr ↦
          let r = read_pieces max_dma_length dev.pending dev.answers in
          (tested (read_test junk r.pieces) r.is_over, r.left)
    ]

-- The descriptors of the process, as far as they can be read or written.
pub record Files : Type 0 where
  pub source : ℤ → Source
  pub sink : ℤ → Sink

abbrev pub set_at {ℓ} : {A : Type ℓ} → (ℤ → A) → ℤ → A → ℤ → A
set_at f fd a at = if at ==ℤ fd then a else f at

-- `write_cmd`
abbrev pub write_cmd : List ℕ
write_cmd = 0x05 ∷ 0xff ∷ 0x00 ∷ 0x00 ∷ 0x00 ∷ 0xff ∷ []

-- `cmd_status_fd = open_cmd_status_device(CmdStatusDevicePath)< 0`, in which `=` binds last.
pub opened_as : (opened : ℤ) → ℤ
opened_as opened = if is_neg (open_cmd_status_device opened).0 then pos 1 else pos 0

-- From the `read`s on; the bytes are read from `cmd_status_fd`.
pub read_status_pieces : (cmd_status_fd : ℤ) → (junk : ℕ) → Files → Tested × Files
unfolding read_pieces
read_status_pieces cmd_status_fd junk w =
    let s = w.source cmd_status_fd in
    let r = read_pieces 0x1000 s.pending s.answers in
    (
      tested (read_test junk r.pieces) r.is_over,
      record w { source = set_at w.source cmd_status_fd r.left },
    )

-- `cmd_status_trans_rw_test`, by what `open` and `malloc` give.
pub cmd_status_trans_rw_test :
    (opened : ℤ) → (allocated : Bool) → (junk : ℕ) → Files → Tested × Files
unfolding opened_as read_status_pieces
cmd_status_trans_rw_test opened allocated junk w =
    let cmd_status_fd = opened_as opened in
    if cmd_status_fd ==ℤ pos 0
    then (let sent =
          writen_to_cmd_status_dev cmd_status_fd (w.sink cmd_status_fd) write_cmd
            (length write_cmd) in
        let w' : Files = record w { sink = set_at w.sink cmd_status_fd sent.sink } in
        elim sent.ret [
          | none ↦ (writing, w')
          | some ret ↦
              if allocated then read_status_pieces cmd_status_fd junk w' else (no_memory, w')
        ])
    else (exited, w)

-- `cmd_and_status_channel_loop_write`, `count` rounds; `none` while a `write` blocks. The sum is that of the
-- transfers that did not come back whole.
pub loop_write : (count sum : ℕ) → ℤ → (buffer : List ℕ) → Sink → Option ℕ × Sink
loop_write zero sum fd buffer s = (some sum, s)
loop_write (suc count) sum fd buffer s =
    let r = writen_to_cmd_status_dev fd s buffer 1024 in
    elim r.ret [
      | none ↦ (none, r.sink)
      | some ret ↦ loop_write count (if ret ==ℤ pos 1024 then sum else sum + 1024) fd buffer r.sink
    ]

pub cmd_and_status_channel_loop_write :
    (cmd_status_fd : ℤ) → (ip_write_cmd : List ℕ) → Sink → Option ℕ × Sink
unfolding loop_write
cmd_and_status_channel_loop_write cmd_status_fd ip_write_cmd s =
    if is_pos cmd_status_fd then loop_write 100 0 cmd_status_fd ip_write_cmd s else (some 0, s)

abbrev pub sum_lengths : List (List ℕ) → ℕ
sum_lengths [] = 0
sum_lengths (xs ∷ pieces) = length xs + sum_lengths pieces

-- `cmd_and_status_channel_loop_read`, by what `malloc` gives: the sum, if there is memory.
pub cmd_and_status_channel_loop_read : (allocated : Bool) → Source → Option ℕ × Source
unfolding read_pieces
cmd_and_status_channel_loop_read allocated s =
    if allocated
    then (let r = read_pieces 0x1000 s.pending s.answers in (some (sum_lengths r.pieces), r.left))
    else (none, s)

data LoopThread : Type 0 where
  reading_thread : LoopThread
  writing_thread : LoopThread

-- `cmd_and_status_channel_rw_loop_test`, by what `open` and the two `pthread_create` give: the descriptor and
-- the threads started.
cmd_and_status_channel_rw_loop_test :
    (opened : ℤ) → (read_created write_created : Bool) → ℤ × List LoopThread
cmd_and_status_channel_rw_loop_test opened read_created write_created = (
  (open_cmd_status_device opened).0,
  if not read_created
      then []
      else reading_thread ∷ (if write_created then writing_thread ∷ [] else []),
)
