-- ===== src/Cmd/Net/Tests.antt =====
-- `read_net_cmd_thread` (cmd_status_trans/server.c) at concrete inputs.
use itrace.Prelude.{ℕ, ◌≡◌, refl, false, List, [], ◌∷◌, ◌++◌, length, replicate, pos, arith}
use itrace.Posix.{serve}
use itrace.General.{running}
use itrace.Cmd.Net.{
  CmdThread, left, header_lost, reset_frame, is_reset, cache_size, read_net_cmd_thread,
}
use itrace.Cmd.Net.Frames.{wire, delivered, read_net_cmd_thread-delivers}
use itrace.Cmd.Net.Safety.{read_net_cmd_thread-in_bounds, read_net_cmd_thread-ctrl}

-- A command of two bytes, an empty one, and the reset frame.
abbrev commands : List (List ℕ)
commands = (1 ∷ 2 ∷ []) ∷ [] ∷ (0x53 ∷ 0xf8 ∷ 0 ∷ 0 ∷ 0 ∷ 0 ∷ 0xff ∷ 0xfe ∷ 0 ∷ 0 ∷ []) ∷ []

abbrev sent_bytes : List ℕ
sent_bytes = 2 ∷ 1 ∷ 2 ∷ 0 ∷ reset_frame

abbrev thread : CmdThread
thread = record {
  socket = record { pending = sent_bytes; answers = replicate 20 (serve 3) };
  dev = record { accepted = []; asked = []; answers = replicate 20 (serve 3) };
  ctrl = [];
  cmd_cache = replicate cache_size 0;
}

is_reset_of_reset_frame : is_reset reset_frame ≡ false
unfolding is_reset
is_reset_of_reset_frame = refl

read_net_cmd_thread-delivers_example :
    let r = read_net_cmd_thread (replicate 3 running ++ running ∷ []) (pos 5) thread in
    (r.0 ≡ left header_lost) × (r.1.dev.accepted ≡ [] ++ delivered commands)
unfolding wire
read_net_cmd_thread-delivers_example =
    read_net_cmd_thread-delivers commands [] (pos 5) thread refl (omega arith) refl (record {
      socket_reliable = tt;
      socket_serves = omega arith;
      dev_reliable = tt;
      dev_serves = omega arith;
    })

read_net_cmd_thread-in_bounds_example :
    length (read_net_cmd_thread (running ∷ running ∷ []) (pos 5) thread).1.cmd_cache ≡ cache_size
read_net_cmd_thread-in_bounds_example =
    read_net_cmd_thread-in_bounds (running ∷ running ∷ []) (pos 5) thread (omega arith) refl

read_net_cmd_thread-ctrl_example :
    (read_net_cmd_thread (running ∷ running ∷ running ∷ []) (pos 5) thread).1.ctrl ≡ []
read_net_cmd_thread-ctrl_example =
    read_net_cmd_thread-ctrl (running ∷ running ∷ running ∷ []) (pos 5) thread
