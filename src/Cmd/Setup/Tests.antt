-- ===== src/Cmd/Setup/Tests.antt =====
-- A child of cmd_status_trans at concrete results of its calls.
use itrace.Prelude.{◌+◌, ◌≡◌, refl, true, pos, length}
use itrace.Cmd.Setup.{Calls, ip_write_cmd}

abbrev calls : Calls
calls = record {
  opened = pos 5;
  reader_created = true;
  sender_created = true;
  clear_created = true;
}

-- The first byte of the address frame counts those behind it.
frame : length (ip_write_cmd 300) ≡ 0x16 + 1
unfolding ip_write_cmd
frame = refl
