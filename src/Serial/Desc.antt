-- ===== src/Serial/Desc.antt =====
-- private_libary/linux_serial_port/linux_serial_port.c: the descriptions of a serial port's
-- parameters, and the codes of <termios.h> that they stand for.
pub mod Rates
mod Tests
use itrace.Prelude.{
  ℕ, zero, suc, List, [], ◌∷◌, Option, none, some, Bool, true, false, ◌||◌, ◌==◌, if◌then◌else◌,
}

-- The codes `B0` to `B4000000` of <termios.h>, which are all different and not negative.
pub data Speed : Type 0 where
  b4800 b9600 b19200 b115200 b0 b50 b75 b110 : Speed
  b134 b150 b200 b300 b600 b1200 b1800 b2400 : Speed
  b38400 b57600 b230400 b460800 b500000 b576000 b921600 b1000000 : Speed
  b1152000 b1500000 b2000000 b2500000 b3000000 b4000000 : Speed

-- The `case` that a description meets, and its code.
unfoldable pub lookup : ℕ → List (ℕ × Speed) → Option Speed
lookup k [] = none
lookup k ((j, v) ∷ cases) = if k == j then some v else lookup k cases

-- The `switch` of `get_baud_rate_from_desc`, case by case.
abbrev pub baud_rate_cases : List (ℕ × Speed)
baud_rate_cases =
    (4800, b4800)
    ∷ (9600, b9600)
    ∷ (19200, b19200)
    ∷ (115200, b115200)
    ∷ (0, b0)
    ∷ (50, b50)
    ∷ (75, b75)
    ∷ (110, b110)
    ∷ (134, b134)
    ∷ (150, b150)
    ∷ (200, b200)
    ∷ (300, b300)
    ∷ (600, b600)
    ∷ (1200, b1200)
    ∷ (1800, b1800)
    ∷ (2400, b2400)
    ∷ (38400, b38400)
    ∷ (57600, b57600)
    ∷ (230400, b230400)
    ∷ (460800, b460800)
    ∷ (500000, b500000)
    ∷ (576000, b576000)
    ∷ (921600, b921600)
    ∷ (1000000, b1000000)
    ∷ (1152000, b1152000)
    ∷ (1500000, b1500000)
    ∷ (2000000, b2000000)
    ∷ (2500000, b2500000)
    ∷ (3000000, b3000000)
    ∷ (3500000, b2500000)
    ∷ (4000000, b4000000)
    ∷ []

-- -1 is `none`.
unfoldable pub get_baud_rate_from_desc : ℕ → Option Speed
unfolding lookup
get_baud_rate_from_desc baud_rate_input = lookup baud_rate_input baud_rate_cases

-- `CS5` to `CS8`
pub data CharSize : Type 0 where
  cs5 cs6 cs7 cs8 : CharSize

unfoldable pub get_data_bits_from_desc : ℕ → Option CharSize
get_data_bits_from_desc data_bits =
    if data_bits == 5
    then some cs5
    else if data_bits == 6
    then some cs6
    else if data_bits == 7
    then some cs7
    else if data_bits == 8
    then some cs8
    else none

-- `STOP_BITS_1` and `STOP_BITS_2`
pub data StopBits : Type 0 where
  stop_bits_1 stop_bits_2 : StopBits

unfoldable pub get_stop_bits_from_desc : ℕ → Option StopBits
get_stop_bits_from_desc stop_bits =
    if stop_bits == 1 then some stop_bits_1 else if stop_bits == 2 then some stop_bits_2 else none

-- `PARITY_ODD` to `PARITY_SPACE`
pub data Parity : Type 0 where
  odd even no_parity space : Parity

unfoldable pub get_parity_from_desc : ℕ → Option Parity
get_parity_from_desc desc =
    if (desc == b'n') || (desc == b'N')
    then some no_parity
    else if (desc == b'o') || (desc == b'O')
    then some odd
    else if (desc == b'e') || (desc == b'E')
    then some even
    else if (desc == b's') || (desc == b'S')
    then some space
    else none
