-- ===== src/Serial/Demo.antt =====
-- private_libary/linux_serial_port/main.c: a serial port opened and set up, with a thread that prints what
-- comes in and a loop that writes 128 bytes at each key.
pub mod Laws
mod Tests
use itrace.Prelude.{
  ℕ, zero, suc, List, [], ◌∷◌, ◌++◌, Bool, true, false, not, ◌==ℤ◌, if◌then◌else◌, ℤ, pos, is_neg,
  take, drop,
}
use itrace.Posix.{Answer, Source, Sink, got, failed, read, wrote, refused, write}
use itrace.Thread
use itrace.Thread.{create_detached_pthread}
use itrace.Serial.Settings.{Termios, SerialPortParams, Applied, set_serial_port_attr}

-- `spp`; the flow type, the time and the number of characters are not read by what follows.
abbrev pub spp : SerialPortParams
spp = record { baud_rate = 9600; parity_bits = b'N'; data_bit = 8; stop_bit = 1 }

-- How far `main` comes, and whether its port is closed by then.
pub data Demo : Type 0 where
  no_port : Demo
  no_flags : (closed : Bool) → Demo  -- "fcntl failed!"
  no_thread : Applied → Demo
  looping : Applied → Demo  -- the `while(1)` loop of `write` and `getchar`

-- By what `open` and `fcntl` give, what `tcgetattr` reads, whether `tcsetattr` succeeds, and the calls of
-- the creation of the thread. The result of `set_serial_port_attr` is only printed.
pub main :
    (opened fcntl : ℤ) → (current : Termios) → (accepts : Bool) → (read_port : Thread.Calls) → Demo
main opened fcntl current accepts read_port =
    if is_neg opened
    then no_port
    else if is_neg fcntl
    then no_flags true
    else let applied = set_serial_port_attr opened spp false current accepts in
      if not ((create_detached_pthread read_port).err ==ℤ pos 0)
      then no_thread applied
      else looping applied

-- `read_port`: the bytes that it prints, and the rest of the stream. With the descriptor 0 it reads nothing.
pub record Printed : Type 0 where
  pub bytes : List ℕ
  pub left : List ℕ

pub print_loop : (pending : List ℕ) → List Answer → Printed
print_loop pending [] = record { bytes = []; left = pending }
print_loop pending (a ∷ answers) = elim (read a 1 pending) [
  | got [] ↦ print_loop pending answers
  | got (b ∷ bs) ↦ let p = print_loop (drop 1 pending) answers in record p { bytes = b ∷ p.bytes }
  | failed e ↦ print_loop pending answers
]

pub read_port : (serial_port_fd : ℤ) → Source → Printed
unfolding print_loop
read_port serial_port_fd s =
    if serial_port_fd ==ℤ pos 0
    then record { bytes = []; left = s.pending }
    else print_loop s.pending s.answers

-- `buf`: 0 to 127
pub counting : (n i : ℕ) → List ℕ
counting zero i = []
counting (suc n) i = i ∷ counting n (suc i)

-- The loop of `write`, a round for each answer of the kernel; what it gives is only printed.
pub send_loop : (accepted asked : List ℕ) → List Answer → Sink
unfolding counting
send_loop accepted asked [] = record { accepted = accepted; asked = asked; answers = [] }
send_loop accepted asked (a ∷ answers) = elim (write a 128) [
  | wrote k ↦ send_loop (accepted ++ take k (counting 128 0)) (128 ∷ asked) answers
  | refused e ↦ send_loop accepted (128 ∷ asked) answers
]
