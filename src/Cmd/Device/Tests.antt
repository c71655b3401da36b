-- ===== src/Cmd/Device/Tests.antt =====
-- `writen_to_cmd_status_dev` (cmd_status_trans/server.c) at concrete inputs.
use itrace.Prelude.{ℕ, ◌≡◌, refl, List, [], ◌∷◌, pos, replicate, arith}
use itrace.Posix.{Sink, serve, refuse, other}
use itrace.Cmd.Device.{piece, writen_to_cmd_status_dev}
use itrace.Cmd.Device.Laws.{IsMoved, writen_to_cmd_status_dev-IsMoved}

-- The device takes 0x1000 bytes at once, then refuses.
abbrev refusing : Sink
refusing = record { accepted = []; asked = []; answers = serve 0xffff ∷ refuse other ∷ [] }

abbrev taking : Sink
taking = record { accepted = []; asked = []; answers = serve 9 ∷ serve 9 ∷ serve 9 ∷ [] }

abbrev long_buffer : List ℕ
long_buffer = replicate 5000 7

piece_values : ◌≡◌ {A = ℕ} (piece 5000) 4096
unfolding piece
piece_values = refl

writen_to_cmd_status_dev-IsMoved_example :
    IsMoved 5000 long_buffer refusing (writen_to_cmd_status_dev (pos 3) refusing long_buffer 5000)
writen_to_cmd_status_dev-IsMoved_example =
    writen_to_cmd_status_dev-IsMoved (pos 3) refusing long_buffer 5000 refl (omega arith)
