-- ===== src/Serial/Desc/Tests.antt =====
-- `get_baud_rate_from_desc` (private_libary/linux_serial_port/linux_serial_port.c) at concrete
-- inputs.
use itrace.Prelude.{◌≡◌, refl, none}
use itrace.Serial.Desc.{get_baud_rate_from_desc}

unsupported : get_baud_rate_from_desc 9601 ≡ none
unfolding get_baud_rate_from_desc
unsupported = refl
