-- ===== src/Serial/Demo/Tests.antt =====
-- The serial port demonstration (private_libary/linux_serial_port/main.c) at concrete inputs.
use itrace.Prelude.{◌≡◌, refl, [], ◌∷◌, none, true, false, pos}
use itrace.Posix.{serve, refuse, eagain, write}
use itrace.Thread
use itrace.Serial.Settings.{Termios}
use itrace.Serial.Demo.{main, send_loop, counting}
use itrace.Serial.Demo.Laws.{SetUp, main-SetUp}

abbrev port : Termios
port = record {
  c_iflag = λ b. true;
  c_oflag = λ b. true;
  c_cflag = λ b. true;
  c_lflag = λ b. true;
  ispeed = none;
  ospeed = none;
  vtime = 0;
  vmin = 1;
}

abbrev calls : Thread.Calls
calls = record { attr_init = pos 0; attr_setdetachstate = pos 0; create = pos 0 }

-- The settings are refused.
main-SetUp_example : SetUp (pos 3) (pos 0) false calls (main (pos 3) (pos 0) port false calls)
main-SetUp_example = main-SetUp (pos 3) (pos 0) port false calls

-- A port that takes three bytes, refuses, and takes two more.
short_writes :
    (send_loop [] [] (serve 2 ∷ refuse eagain ∷ serve 1 ∷ [])).accepted ≡ 0 ∷ 1 ∷ 2 ∷ 0 ∷ 1 ∷ []
unfolding send_loop counting write
short_writes = refl
