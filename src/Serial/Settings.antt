-- ===== src/Serial/Settings.antt =====
-- private_libary/linux_serial_port/linux_serial_port.c: the settings written into `struct termios`.
pub mod Fields
pub mod Laws
mod Tests
use itrace.Prelude.{
  ℕ, ◌%◌, List, [], ◌∷◌, Option, none, some, Bool, true, false, ◌&&◌, ◌||◌, not, ◌==◌,
  if◌then◌else◌, ℤ, pos, minus_one, is_neg,
}
use itrace.Serial.Flags.{
  Word, bit_in, set_bits, clear_bits, ignbrk, brkint, parmrk, inpck, istrip, inlcr, icrnl, ixon,
  ixany, ixoff, ibaud0, cbaud, speed_bits, opost, isig, icanon, echo, echonl, iexten, csize,
  size_bits, cstopb, parenb, parodd, crtscts,
}
use itrace.Serial.Desc.{
  Speed, b0, get_baud_rate_from_desc, CharSize, cs5, cs6, cs7, cs8, get_data_bits_from_desc,
  StopBits, stop_bits_1, stop_bits_2, get_stop_bits_from_desc, Parity, odd, even, no_parity, space,
  get_parity_from_desc,
}

-- `struct termios`, with its two speeds as codes, and the two entries of `c_cc` in use.
pub record Termios : Type 0 where
  pub c_iflag : Word
  pub c_oflag : Word
  pub c_cflag : Word
  pub c_lflag : Word
  pub ispeed : Option Speed
  pub ospeed : Option Speed
  pub vtime : ℕ
  pub vmin : ℕ

abbrev is_zero : Speed → Bool
is_zero b0 = true
is_zero _ = false

-- `cfsetispeed` and `cfsetospeed`, as the C library of Linux does them: the speed stands in `CBAUD` too.
cfsetispeed : Termios → Speed → Termios
cfsetispeed options v = record options {
  ispeed = some v;
  c_iflag =
      if is_zero v
      then set_bits (ibaud0 ∷ []) options.c_iflag
      else clear_bits (ibaud0 ∷ []) options.c_iflag;
  c_cflag =
      if is_zero v
      then options.c_cflag
      else set_bits (speed_bits v) (clear_bits cbaud options.c_cflag);
}

cfsetospeed : Termios → Speed → Termios
cfsetospeed options v = record options {
  ospeed = some v;
  c_cflag = set_bits (speed_bits v) (clear_bits cbaud options.c_cflag);
}

-- Each setter returns its result beside the structure.
set_baud_rate : Termios → ℕ → ℤ × Termios
unfolding cfsetispeed cfsetospeed
set_baud_rate options baud_rate_desc = elim (get_baud_rate_from_desc baud_rate_desc) [
  | none ↦ (minus_one, options)
  | some v ↦ (pos 0, cfsetospeed (cfsetispeed options v) v)
]

set_stop_bits : Termios → ℕ → ℤ × Termios
set_stop_bits options stop_bits = elim (get_stop_bits_from_desc stop_bits) [
  | none ↦ (minus_one, options)
  | some stop_bits_1 ↦
      (pos 0, record options { c_cflag = clear_bits (cstopb ∷ []) options.c_cflag })
  | some stop_bits_2 ↦ (pos 0, record options { c_cflag = set_bits (cstopb ∷ []) options.c_cflag })
]

set_data_bits : Termios → ℕ → ℤ × Termios
set_data_bits options data_bits = elim (get_data_bits_from_desc data_bits) [
  | none ↦ (minus_one, options)
  | some size ↦ (
    pos 0,
    record options { c_cflag = set_bits (size_bits size) (clear_bits csize options.c_cflag) },
  )
]

abbrev check_flags : List ℕ
check_flags = inpck ∷ parmrk ∷ istrip ∷ []

-- The `switch` of `set_parity_bits`; `PARITY_NO` falls through to `PARITY_SPACE`.
parity_case_space : Termios → Termios
parity_case_space options = record options {
  c_cflag = clear_bits (parenb ∷ []) options.c_cflag;
  c_iflag = clear_bits check_flags options.c_iflag;
}

parity_case : Parity → Termios → Termios
unfolding parity_case_space
parity_case even options = record options {
  c_cflag = clear_bits (parodd ∷ []) (set_bits (parenb ∷ []) options.c_cflag);
  c_iflag = set_bits check_flags options.c_iflag;
}
parity_case odd options = record options {
  c_cflag = set_bits (parodd ∷ []) (set_bits (parenb ∷ []) options.c_cflag);
  c_iflag = set_bits check_flags options.c_iflag;
}
parity_case no_parity options = parity_case_space (record options {
  c_cflag = clear_bits (parenb ∷ []) options.c_cflag;
  c_iflag = clear_bits check_flags options.c_iflag;
})
parity_case space options = parity_case_space options

set_parity_bits : Termios → ℕ → ℤ × Termios
unfolding parity_case
set_parity_bits options parity_desc = elim (get_parity_from_desc parity_desc) [
  | none ↦ (minus_one, options)
  | some p ↦
      (pos 0, parity_case p (record options { c_iflag = set_bits (inpck ∷ []) options.c_iflag }))
]

set_hardware_flow_ctl : Termios → Bool → ℤ × Termios
set_hardware_flow_ctl options on = (
  pos 0,
  record options {
    c_cflag =
        if on
        then set_bits (crtscts ∷ []) options.c_cflag
        else clear_bits (crtscts ∷ []) options.c_cflag;
  },
)

set_over_time_and_char_recved : Termios → (max_sec max_data_size : ℕ) → ℤ × Termios
set_over_time_and_char_recved options max_sec max_data_size =
    (pos 0, record options { vtime = max_sec; vmin = max_data_size })

-- All of its body is commented out in the source, as is that of `set_local_recv`.
set_raw_input_mode : Termios → Bool → ℤ × Termios
set_raw_input_mode options on = (pos 0, options)

abbrev software_flow : List ℕ
software_flow = ixon ∷ ixoff ∷ ixany ∷ []

set_software_flow_ctl : Termios → Bool → ℤ × Termios
set_software_flow_ctl options on = (
  pos 0,
  record options {
    c_iflag =
        if on
        then set_bits software_flow options.c_iflag
        else clear_bits software_flow options.c_iflag;
  },
)

set_local_recv : Termios → Bool → ℤ × Termios
set_local_recv options on = (pos 0, options)

-- `struct serial_port_params`, as far as it is read.
pub record SerialPortParams : Type 0 where
  pub baud_rate : ℕ
  pub data_bit : ℕ
  pub stop_bit : ℕ
  pub parity_bits : ℕ

-- The result, what is written to `old_attr`, the settings handed to `tcsetattr`, and whether the
-- port has been closed and its queues flushed.
pub record Applied : Type 0 where
  pub ret : ℤ
  pub old_attr : Option Termios
  pub new_attr : Option Termios
  pub closed : Bool
  pub flushed : Bool

-- The settings that `set_serial_port_attr` makes of those that `tcgetattr` reads. The numbers of
-- data and stop bits are passed on as a `char`.
pub make_attr : SerialPortParams → Termios → Termios
unfolding set_local_recv set_baud_rate set_data_bits set_parity_bits set_stop_bits
make_attr spp attr =
    let a = (set_local_recv attr true).1 in
    let b = (set_baud_rate a spp.baud_rate).1 in
    let c = (set_data_bits b (spp.data_bit % 256)).1 in
    let d = (set_parity_bits c spp.parity_bits).1 in
    let e = (set_stop_bits d (spp.stop_bit % 256)).1 in
    record e {
      c_iflag =
          clear_bits software_flow (clear_bits (ignbrk ∷ brkint ∷ icrnl ∷ inlcr ∷ []) e.c_iflag);
      c_oflag = clear_bits (opost ∷ []) e.c_oflag;
      c_lflag = clear_bits (echo ∷ echonl ∷ icanon ∷ iexten ∷ isig ∷ []) e.c_lflag;
    }

-- `current` is what `tcgetattr` reads from the port, `accepts` whether `tcsetattr` succeeds.
pub set_serial_port_attr :
    (serial_dev_fd : ℤ)
    → SerialPortParams
    → (wants_old : Bool) → (current : Termios) → (accepts : Bool) → Applied
unfolding make_attr
set_serial_port_attr serial_dev_fd spp wants_old current accepts =
    let old = if wants_old then some current else none in
    let attr = make_attr spp current in
    if is_neg serial_dev_fd
    then record {
      ret = minus_one;
      old_attr = none;
      new_attr = none;
      closed = false;
      flushed = false;
    }
    else if accepts
    then record {
      ret = pos 0;
      old_attr = old;
      new_attr = some attr;
      closed = false;
      flushed = true;
    }
    else record {
      ret = minus_one;
      old_attr = old;
      new_attr = some attr;
      closed = true;
      flushed = false;
    }

-- The result of `set_serial_port_attr` is dropped: 0 is returned whatever happened.
set_serial_port_quick :
    (serial_dev_fd : ℤ)
    → (baud_rate parity data_bits stop_bit : ℕ) → (wants_old : Bool) → (current : Termios)
    → (accepts : Bool) → ℤ × Applied
unfolding set_serial_port_attr
set_serial_port_quick serial_dev_fd baud_rate parity data_bits stop_bit wants_old current accepts =
    (
      pos 0,
      set_serial_port_attr serial_dev_fd
          (record {
            baud_rate = baud_rate;
            data_bit = data_bits;
            stop_bit = stop_bit;
            parity_bits = parity;
          })
          wants_old current accepts,
    )
