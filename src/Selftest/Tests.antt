-- ===== src/Selftest/Tests.antt =====
-- `check_data_inc` and the loops over it (acq_data_trans/test.c, cmd_status_trans/test.c) at concrete
-- inputs.
use itrace.Prelude.{◌≡◌, refl, [], ◌∷◌}
use itrace.Selftest.{read_test, read_test_loop, test_round, check_data_inc, check_loop}

-- Bytes 3 to 6 are lost between the two pieces, and no error is counted.
missed : read_test 0 ((1 ∷ 2 ∷ []) ∷ (7 ∷ 8 ∷ []) ∷ []) ≡ 0
unfolding read_test_loop test_round check_data_inc check_loop
missed = refl
