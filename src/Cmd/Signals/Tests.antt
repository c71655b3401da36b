-- ===== src/Cmd/Signals/Tests.antt =====
-- The signal handler of cmd_status_trans/main.c at concrete signals.
use itrace.Prelude.{◌≡◌, refl, [], ◌∷◌, true, false, pos, replicate, arith}
use itrace.Posix.{Sink, refuse, other}
use itrace.Cmd.Setup.{Calls, clear_source, set_up_child}
use itrace.Cmd.Setup.Laws.{clearing}
use itrace.Lifecycle.Clearing.{cmd_clear}
use itrace.Lifecycle.Signals.{sigint, sigpipe, clear_up}
use itrace.Cmd.Signals.{cmd_deliver, cmd_start, set_up_child-cmd_clear_up}

abbrev calls : Calls
calls = record {
  opened = pos 5;
  reader_created = true;
  sender_created = true;
  clear_created = true;
}

-- What stands behind descriptor 0, which `cmd_status_fd` is.
abbrev input : Sink
input = record { accepted = []; asked = []; answers = replicate 4 (refuse other) }

set_up_child-cmd_clear_up_example :
    let r = cmd_deliver (pos 0) (0xff ∷ []) (sigpipe ∷ sigint ∷ []) (cmd_start input) in
    (clear_up cmd_clear (clear_source (set_up_child (pos 4) calls)) r.process
      ≡ clearing (pos 5) (pos 4))
    × (r.dev.accepted ≡ [])
    × (r.waits ≡ false)
set_up_child-cmd_clear_up_example =
    set_up_child-cmd_clear_up 3 calls (pos 0) (0xff ∷ []) (sigpipe ∷ sigint ∷ []) input 4 refl
      (omega arith)
