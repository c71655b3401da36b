-- ===== src/Selftest/Device/Tests.antt =====
-- The tests of acq_data_trans/test.c and cmd_status_trans/test.c at concrete inputs.
use itrace.Prelude.{refl, [], ◌∷◌, true, replicate, pos}
use itrace.Posix.{Source, Sink, serve, refuse, other}
use itrace.Selftest.Device.{Files, cmd_status_trans_rw_test}
use itrace.Selftest.Device.Stdin.{Misdirected, cmd_status_trans_rw_test-stdin}

abbrev device : Source
device = record { pending = 1 ∷ 2 ∷ 7 ∷ 8 ∷ []; answers = serve 1 ∷ serve 0 ∷ refuse other ∷ [] }

abbrev taking : Sink
taking = record { accepted = []; asked = []; answers = replicate 9 (serve 2000) }

abbrev files : Files
files = record { source = λ fd. device; sink = λ fd. taking }

-- The device is descriptor 5.
cmd_status_trans_rw_test-stdin_example :
    Misdirected (pos 5) true 0 (pos 5) files (cmd_status_trans_rw_test (pos 5) true 0 files)
cmd_status_trans_rw_test-stdin_example =
    cmd_status_trans_rw_test-stdin (pos 5) true 0 files (pos 5) refl
