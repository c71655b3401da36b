-- ===== src/Cmd/Child/Tests.antt =====
-- The two threads of the command child (cmd_status_trans/server.c) at concrete inputs.
use itrace.Prelude.{◌≤◌, ◌≡◌, refl, List, [], ◌∷◌, replicate, pos, minus_one, is_neg, true}
use itrace.Posix.{serve, refuse, other, write}
use itrace.General.{running, writen}
use itrace.Cmd.Net.{read_net_cmd_thread}
use itrace.Cmd.Child.{CmdPc, StatusPc, in_entity, in_send, Child, Event, cmd, status, turn, run}
use itrace.Cmd.Child.Ending.{moves}
use itrace.Cmd.Child.Loss.{frames_passed, frames_passed-after_failure}
use itrace.Cmd.Child.CmdTurns
use itrace.Cmd.Child.StatusTurns
use itrace.Cmd.Child.StatusTurns.{status_of}
use itrace.Cmd.Child.Each.{turns-loops}
use itrace.Cmd.Status.{status_loop}

-- Two frames come; the client takes one byte of the status and is lost.
abbrev child : Child
child = record {
  sys_status = running;
  socket_fd = pos 6;
  cmd_pc = in_entity (pos 6);
  cmd = record {
    socket = record { pending = 1 ∷ 2 ∷ 2 ∷ 3 ∷ 4 ∷ []; answers = replicate 9 (serve 3) };
    dev = record { accepted = []; asked = []; answers = replicate 9 (serve 8) };
    ctrl = [];
    cmd_cache = 2 ∷ replicate 511 0;
  };
  status_pc = in_send (pos 6) (7 ∷ 8 ∷ []);
  status_dev = record { pending = []; answers = [] };
  status_socket = record { accepted = []; asked = []; answers = serve 0 ∷ refuse other ∷ [] };
}

abbrev events : List Event
events = cmd ∷ status ∷ cmd ∷ cmd ∷ cmd ∷ cmd ∷ cmd ∷ cmd ∷ []

frames_passed-after_failure_example :
    (is_neg (run (pos 5) events (turn (pos 5) status child)).socket_fd ≡ true)
    × (frames_passed (pos 5) events (turn (pos 5) status child) ≤ 1)
    × (moves (pos 5) events (turn (pos 5) status child) ≤ 5)
unfolding writen write
frames_passed-after_failure_example =
    frames_passed-after_failure (pos 5) events child (pos 6) (7 ∷ 8 ∷ []) minus_one refl refl refl

abbrev whole : Child
whole = record child {
  cmd_pc = CmdPc.testing;
  status_pc = StatusPc.testing;
  status_dev = record { pending = 5 ∷ 6 ∷ []; answers = serve 0 ∷ serve 0 ∷ [] };
  cmd = record child.cmd {
    socket = record { pending = 2 ∷ 1 ∷ 2 ∷ 0 ∷ []; answers = replicate 9 (serve 3) };
  };
}

turns-loops_example :
    let r = read_net_cmd_thread (replicate 2 running) (pos 5) whole.cmd in
    let q = status_loop (replicate 3 running) (status_of whole) in
    CmdTurns.Turns (pos 5) whole (CmdTurns.StandsAt r.0) r.1
    × StatusTurns.Turns (pos 5) whole (StatusTurns.StandsAt q.0) q.1
turns-loops_example = turns-loops (pos 5) 2 3 whole refl refl refl refl
