-- ===== src/Serial/Settings/Laws.antt =====
-- What `set_serial_port_attr` (private_libary/linux_serial_port/linux_serial_port.c) sets.
use itrace.Prelude.{
  ℕ, ◌%◌, ◌≡◌, ◌⊎◌, refl, [], ◌∷◌, none, some, Bool, true, false, ◌&&◌, not, if◌then◌else◌, ℤ, pos,
  minus_one, is_neg, arith,
}
use itrace.Serial.Desc.{get_baud_rate_from_desc}
use itrace.Serial.Flags.{
  bit_in, ignbrk, brkint, inlcr, icrnl, ixon, ixany, ixoff, opost, isig, icanon, echo, echonl,
  iexten, cstopb, parenb, parodd,
}
use itrace.Serial.Settings.Fields.{
  IsSpeedOf, IsSizeOf, IsStopOf, IsParityOf, make_attr-IsSpeedOf, make_attr-IsSizeOf,
  make_attr-IsStopOf, make_attr-IsParityOf, size-View, stop-View, parity-View,
}
use itrace.Serial.Settings.{Termios, SerialPortParams, make_attr, set_serial_port_attr}

-- The settings `new`, made of `old` for the parameters `spp`.
pub record IsConfigured (spp : SerialPortParams) (old new : Termios) : Type 0 where
  pub speed : IsSpeedOf spp.baud_rate old new
  pub size : IsSizeOf (spp.data_bit % 256) old new
  pub two_stop_bits : IsStopOf (spp.stop_bit % 256) old new
  pub parity : IsParityOf spp.parity_bits old new
  pub raw_input :
      (b : ℕ)
      → (bit_in (ignbrk ∷ brkint ∷ icrnl ∷ inlcr ∷ ixon ∷ ixoff ∷ ixany ∷ []) b && new.c_iflag b)
        ≡ false
  pub raw_output : new.c_oflag opost ≡ false
  pub raw_local :
      (b : ℕ) → (bit_in (echo ∷ echonl ∷ icanon ∷ iexten ∷ isig ∷ []) b && new.c_lflag b) ≡ false
  -- No other bit of the control word changes, nor do the time and count of `c_cc`.
  pub control_kept :
      (b : ℕ)
      → (bit_in (0 ∷ 1 ∷ 2 ∷ 3 ∷ 12 ∷ 4 ∷ 5 ∷ cstopb ∷ parenb ∷ parodd ∷ []) b ≡ true)
        ⊎ (new.c_cflag b ≡ old.c_cflag b)
  pub times_kept : (new.vtime ≡ old.vtime) × (new.vmin ≡ old.vmin)

make_attr-IsConfigured :
    (spp : SerialPortParams) (old : Termios) → IsConfigured spp old (make_attr spp old)
unfolding make_attr
make_attr-IsConfigured spp old = record {
  speed = make_attr-IsSpeedOf spp old (get_baud_rate_from_desc spp.baud_rate) refl;
  size = make_attr-IsSizeOf spp old _ refl (size-View (spp.data_bit % 256));
  two_stop_bits = make_attr-IsStopOf spp old _ refl (stop-View (spp.stop_bit % 256));
  parity = make_attr-IsParityOf spp old _ refl (parity-View spp.parity_bits);
  raw_input = λ b. ground arith;
  raw_output = ground arith;
  raw_local = λ b. ground arith;
  control_kept = λ b. ground arith;
  times_kept = ground arith;
}

-- For all parameters, ports and answers of `tcsetattr`: unless the descriptor is negative, the
-- settings handed to `tcsetattr` have the speed (in both fields and in `CBAUD`), the character size, the stop
-- bits and the parity that the parameters name, or keep them where a parameter names none, except that
-- 3500000 gets `B2500000`; even and odd parity turn `INPCK`, `PARMRK` and `ISTRIP` on. Input and output are raw and
-- every other control bit is as it was. The result is 0, with the queues
-- flushed, exactly when they are accepted, and otherwise -1 with the port closed; with a negative
-- descriptor it is -1, and nothing is done.
pub set_serial_port_attr-IsConfigured :
    (fd : ℤ) (spp : SerialPortParams) (wants_old : Bool) (current : Termios) (accepts : Bool)
    → let r = set_serial_port_attr fd spp wants_old current accepts in
      (new : Termios) × IsConfigured spp current new
      × (r.new_attr ≡ (if is_neg fd then none else some new))
      × (r.ret ≡ (if is_neg fd then minus_one else if accepts then pos 0 else minus_one))
      × (r.closed ≡ (not (is_neg fd) && not accepts))
      × (r.flushed ≡ (not (is_neg fd) && accepts))
unfolding set_serial_port_attr
set_serial_port_attr-IsConfigured fd spp wants_old current accepts = (
  make_attr spp current,
  make_attr-IsConfigured spp current,
  ground arith,
  ground arith,
  ground arith,
  ground arith,
)
