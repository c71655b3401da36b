-- ===== src/Serial/Settings/Tests.antt =====
-- `set_serial_port_attr` (private_libary/linux_serial_port/linux_serial_port.c) at concrete inputs.
use itrace.Prelude.{◌≡◌, some, none, true, false, pos}
use itrace.Serial.Settings.{Termios, SerialPortParams, set_serial_port_attr}
use itrace.Serial.Settings.Laws.{IsConfigured, set_serial_port_attr-IsConfigured}

-- Every flag is set.
abbrev all_on : Termios
all_on = record {
  c_iflag = λ b. true;
  c_oflag = λ b. true;
  c_cflag = λ b. true;
  c_lflag = λ b. true;
  ispeed = none;
  ospeed = none;
  vtime = 0;
  vmin = 1;
}

-- 9600, 8 data bits, no parity, 1 stop bit
abbrev params : SerialPortParams
params = record { baud_rate = 9600; data_bit = 8; stop_bit = 1; parity_bits = b'N' }

set_serial_port_attr-IsConfigured_example :
    let r = set_serial_port_attr (pos 3) params false all_on true in
    (new : Termios) × IsConfigured params all_on new
    × (r.new_attr ≡ some new)
    × (r.ret ≡ pos 0)
    × (r.closed ≡ false)
    × (r.flushed ≡ true)
set_serial_port_attr-IsConfigured_example =
    set_serial_port_attr-IsConfigured (pos 3) params false all_on true
