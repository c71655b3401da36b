-- ===== src/Serial/Flags.antt =====
-- private_libary/linux_serial_port/linux_serial_port.c: the bits of `struct termios` that it sets
-- and clears. A flag word is a function from bit positions; the positions are those of Linux's
-- <termios.h>.
use itrace.Prelude.{ℕ, List, [], ◌∷◌, Bool, false, ◌&&◌, ◌||◌, not, ◌==◌}
use itrace.Serial.Desc.{
  Speed, b0, b50, b75, b110, b134, b150, b200, b300, b600, b1200, b1800, b2400, b4800, b9600,
  b19200, b38400, b57600, b115200, b230400, b460800, b500000, b576000, b921600, b1000000, b1152000,
  b1500000, b2000000, b2500000, b3000000, b4000000, CharSize, cs5, cs6, cs7, cs8,
}

abbrev pub Word : Type 0
Word = ℕ → Bool

-- A mask, by the positions of its bits.
abbrev pub bit_in : List ℕ → Word
bit_in [] b = false
bit_in (m ∷ mask) b = (b == m) || bit_in mask b

-- `w |= mask` and `w &= ~mask`
abbrev pub set_bits : List ℕ → Word → Word
set_bits mask w b = bit_in mask b || w b

abbrev pub clear_bits : List ℕ → Word → Word
clear_bits mask w b = not (bit_in mask b) && w b

-- c_iflag
abbrev pub ignbrk : ℕ
ignbrk = 0

abbrev pub brkint : ℕ
brkint = 1

abbrev pub parmrk : ℕ
parmrk = 3

abbrev pub inpck : ℕ
inpck = 4

abbrev pub istrip : ℕ
istrip = 5

abbrev pub inlcr : ℕ
inlcr = 6

abbrev pub icrnl : ℕ
icrnl = 8

abbrev pub ixon : ℕ
ixon = 10

abbrev pub ixany : ℕ
ixany = 11

abbrev pub ixoff : ℕ
ixoff = 12

-- `IBAUD0`, the mark of an input speed of 0
abbrev pub ibaud0 : ℕ
ibaud0 = 31

-- c_oflag
abbrev pub opost : ℕ
opost = 0

-- c_lflag
abbrev pub isig : ℕ
isig = 0

abbrev pub icanon : ℕ
icanon = 1

abbrev pub echo : ℕ
echo = 3

abbrev pub echonl : ℕ
echonl = 6

abbrev pub iexten : ℕ
iexten = 15

-- c_cflag; `CSIZE` is the bits 4 and 5, and `CS6`, `CS7`, `CS8` are values of it.
abbrev pub csize : List ℕ
csize = 4 ∷ 5 ∷ []

abbrev pub size_bits : CharSize → List ℕ
size_bits cs5 = []
size_bits cs6 = 4 ∷ []
size_bits cs7 = 5 ∷ []
size_bits cs8 = 4 ∷ 5 ∷ []

abbrev pub cstopb : ℕ
cstopb = 6

abbrev pub parenb : ℕ
parenb = 8

abbrev pub parodd : ℕ
parodd = 9

-- `CBAUD`, and the codes of the speeds, which are values of it.
abbrev pub cbaud : List ℕ
cbaud = 0 ∷ 1 ∷ 2 ∷ 3 ∷ 12 ∷ []

abbrev pub speed_bits : Speed → List ℕ
speed_bits b0 = []
speed_bits b50 = 0 ∷ []
speed_bits b75 = 1 ∷ []
speed_bits b110 = 0 ∷ 1 ∷ []
speed_bits b134 = 2 ∷ []
speed_bits b150 = 0 ∷ 2 ∷ []
speed_bits b200 = 1 ∷ 2 ∷ []
speed_bits b300 = 0 ∷ 1 ∷ 2 ∷ []
speed_bits b600 = 3 ∷ []
speed_bits b1200 = 0 ∷ 3 ∷ []
speed_bits b1800 = 1 ∷ 3 ∷ []
speed_bits b2400 = 0 ∷ 1 ∷ 3 ∷ []
speed_bits b4800 = 2 ∷ 3 ∷ []
speed_bits b9600 = 0 ∷ 2 ∷ 3 ∷ []
speed_bits b19200 = 1 ∷ 2 ∷ 3 ∷ []
speed_bits b38400 = 0 ∷ 1 ∷ 2 ∷ 3 ∷ []
speed_bits b57600 = 0 ∷ 12 ∷ []
speed_bits b115200 = 1 ∷ 12 ∷ []
speed_bits b230400 = 0 ∷ 1 ∷ 12 ∷ []
speed_bits b460800 = 2 ∷ 12 ∷ []
speed_bits b500000 = 0 ∷ 2 ∷ 12 ∷ []
speed_bits b576000 = 1 ∷ 2 ∷ 12 ∷ []
speed_bits b921600 = 0 ∷ 1 ∷ 2 ∷ 12 ∷ []
speed_bits b1000000 = 3 ∷ 12 ∷ []
speed_bits b1152000 = 0 ∷ 3 ∷ 12 ∷ []
speed_bits b1500000 = 1 ∷ 3 ∷ 12 ∷ []
speed_bits b2000000 = 0 ∷ 1 ∷ 3 ∷ 12 ∷ []
speed_bits b2500000 = 2 ∷ 3 ∷ 12 ∷ []
speed_bits b3000000 = 0 ∷ 2 ∷ 3 ∷ 12 ∷ []
speed_bits b4000000 = 0 ∷ 1 ∷ 2 ∷ 3 ∷ 12 ∷ []

abbrev pub crtscts : ℕ
crtscts = 31
