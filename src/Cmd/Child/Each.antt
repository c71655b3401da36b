-- ===== src/Cmd/Child/Each.antt =====
-- cmd_status_trans/server.c: the turns of the two threads of a child against the loops of `read_net_cmd_thread` and
-- `send_status_data_thread`.
use itrace.Prelude.{ℕ, ◌≡◌, false, ℤ, is_neg, replicate}
use itrace.General.{running}
use itrace.Cmd.Net.{read_net_cmd_thread}
use itrace.Cmd.Status.{status_loop}
use itrace.Cmd.Child.{CmdPc, StatusPc, Child}
use itrace.Cmd.Child.CmdTurns
use itrace.Cmd.Child.Alone.{turns-read_net_cmd_thread}
use itrace.Cmd.Child.StatusTurns
use itrace.Cmd.Child.StatusTurns.{status_of}
use itrace.Cmd.Child.StatusAlone.{turns-status_loop}

-- With a valid descriptor, the system running and both threads at their tests, some number of the turns of one thread
-- alone do what the loop of that thread does in any number of rounds: those of the command thread leave the
-- socket, device, control register and cache of `read_net_cmd_thread`, and those of the status thread the
-- device, socket and descriptor of `send_status_data_thread`; the thread then stands at its next test, or
-- out of its loop where the loop was left, or in a call where it blocks, and nothing else has changed.
pub turns-loops :
    (dev_fd : ℤ) (k l : ℕ) (c : Child)
    → c.sys_status ≡ running
    → is_neg c.socket_fd ≡ false
    → c.cmd_pc ≡ CmdPc.testing
    → c.status_pc ≡ StatusPc.testing
    → let r = read_net_cmd_thread (replicate k running) dev_fd c.cmd in
      let q = status_loop (replicate l running) (status_of c) in
      CmdTurns.Turns dev_fd c (CmdTurns.StandsAt r.0) r.1
      × StatusTurns.Turns dev_fd c (StatusTurns.StandsAt q.0) q.1
turns-loops dev_fd k l c on valid at status_at =
    (turns-read_net_cmd_thread dev_fd k c on valid at, turns-status_loop dev_fd l c on status_at)
