-- ===== src/Cmd/Child/Alone.antt =====
-- cmd_status_trans/server.c: while the descriptor is valid and the other thread does not move, the turns of
-- the command thread are the loop of `read_net_cmd_thread`.
use itrace.Prelude.{ℕ, zero, suc, ◌+◌, ◌≡◌, refl, subst, sym, ◌∙◌, ap, false, ℤ, is_neg, replicate}
use itrace.General.{running}
use itrace.Cmd.Net.{
  CmdThread, Round, again, header_lost, entity_lost, device_lost, blocked, read_frame, Outcome,
  left, read_net_cmd_thread,
}
use itrace.Cmd.Child.Runs.{run-more}
use itrace.Cmd.Child.{CmdPc, testing, Child, cmd}
use itrace.Cmd.Child.CmdTurns.{StandsAfter, StandsAt, Turns, here, frame-Turns}

after_round :
    (dev_fd : ℤ) (c : Child) (u t : CmdThread) (Stands : CmdPc → Type 0)
    → Turns dev_fd c (StandsAfter again) u
    → Turns dev_fd (record c { cmd = u; cmd_pc = testing }) Stands t
    → Turns dev_fd c Stands t
after_round dev_fd c u t Stands first rest = record {
  turns = first.turns + rest.turns;
  cmd_pc = rest.cmd_pc;
  ran =
      run-more dev_fd cmd first.turns rest.turns c _ _
        (first.ran ∙ ap (λ pc. record c { cmd = u; cmd_pc = pc }) first.stands) rest.ran;
  stands = rest.stands;
}

-- With a valid descriptor, while the system is running, some number of the command thread's turns alone do
-- what the loop of `read_net_cmd_thread` does in any number of rounds: they leave the same socket,
-- device, control register and cache, with the thread at the next test, or out of its loop where the
-- loop was left, or in a call where it blocks; nothing else changes.
pub turns-read_net_cmd_thread :
    (dev_fd : ℤ) (k : ℕ) (c : Child)
    → c.sys_status ≡ running
    → is_neg c.socket_fd ≡ false
    → c.cmd_pc ≡ testing
    → let r = read_net_cmd_thread (replicate k running) dev_fd c.cmd in
      Turns dev_fd c (StandsAt r.0) r.1
unfolding read_net_cmd_thread
turns-read_net_cmd_thread dev_fd zero c on valid at = here dev_fd c testing _ at refl
turns-read_net_cmd_thread dev_fd (suc k) c on valid at =
    go (read_frame dev_fd c.cmd).0 (read_frame dev_fd c.cmd).1
      (subst
        (λ pc.
          Turns dev_fd (record c { cmd_pc = pc }) (StandsAfter (read_frame dev_fd c.cmd).0)
            (read_frame dev_fd c.cmd).1)
        (sym at) (frame-Turns dev_fd c on valid))
      (λ u.
        turns-read_net_cmd_thread dev_fd k (record c { cmd = u; cmd_pc = testing }) on valid refl)
  where
    go :
        (r : Round) (u : CmdThread)
        → Turns dev_fd c (StandsAfter r) u
        → ((u : CmdThread)
            → let q = read_net_cmd_thread (replicate k running) dev_fd u in
              Turns dev_fd (record c { cmd = u; cmd_pc = testing }) (StandsAt q.0) q.1)
        → let q : Outcome × CmdThread = elim r [
          | again ↦ read_net_cmd_thread (replicate k running) dev_fd u
          | r ↦ (left r, u)
        ] in
          Turns dev_fd c (StandsAt q.0) q.1
    go again u first rec = after_round dev_fd c u _ _ first (rec u)
    go header_lost u first rec = first
    go entity_lost u first rec = first
    go device_lost u first rec = first
    go blocked u first rec = first
