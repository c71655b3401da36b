-- ===== src/Cmd/Child/Loss.antt =====
-- cmd_status_trans/server.c: what the command thread still does when the status thread has overwritten the
-- descriptor that they share.
use itrace.Prelude.{
  ℕ, ◌+◌, ◌≤◌, ◌≡◌, refl, subst, sym, List, [], ◌∷◌, some, true, false, if◌then◌else◌, length, ℤ,
  pos, is_neg, ◌==ℤ◌, arith,
}
use itrace.Posix.{Source, Sink}
use itrace.General.{SystemStatus, running, stop, writen}
use itrace.Cmd.Net.{CmdThread}
use itrace.Cmd.Child.Ending.{status_turn-lost, moves, moves-lost}
use itrace.Cmd.Child.{
  recv, CmdPc, testing, at_header, in_header, at_entity, in_entity, at_device, gone, StatusPc,
  in_send, Child, cmd_turn, status_turn, Event, cmd, status, sigint, turn, run,
}

-- Whether the command thread has come back from passing a frame to the device.
abbrev pub passed : (before after : CmdPc) → ℕ
passed at_device at_device = 0
passed at_device pc = 1
passed pc pc' = 0

-- How many frames the command thread has passed to the device in `events`.
pub frames_passed : (dev_fd : ℤ) → List Event → Child → ℕ
frames_passed dev_fd [] c = 0
frames_passed dev_fd (e ∷ events) c =
    passed c.cmd_pc (turn dev_fd e c).cmd_pc + frames_passed dev_fd events (turn dev_fd e c)

-- How many frames it may still pass when the client is lost.
in_hand : CmdPc → ℕ
in_hand at_device = 1
in_hand (in_entity fd) = if is_neg fd then 0 else 1
in_hand pc = 0

record IsAfter (c d : Child) : Type 0 where
  lost : is_neg d.socket_fd ≡ true
  fewer : passed c.cmd_pc d.cmd_pc + in_hand d.cmd_pc ≤ in_hand c.cmd_pc

cmd_turn-IsAfter :
    (dev_fd : ℤ) (sys_status : SystemStatus) (socket_fd : ℤ) (pc : CmdPc) (t : CmdThread)
    (spc : StatusPc) (dev : Source) (socket : Sink)
    → is_neg socket_fd ≡ true
    → let c : Child = record {
      sys_status = sys_status;
      socket_fd = socket_fd;
      cmd_pc = pc;
      cmd = t;
      status_pc = spc;
      status_dev = dev;
      status_socket = socket;
    } in
      IsAfter c (cmd_turn dev_fd pc c)
unfolding cmd_turn in_hand recv
cmd_turn-IsAfter dev_fd running socket_fd testing t spc dev socket h = record {
  lost = h;
  fewer = omega arith;
}
cmd_turn-IsAfter dev_fd stop socket_fd testing t spc dev socket h = record {
  lost = h;
  fewer = omega arith;
}
cmd_turn-IsAfter dev_fd sys_status socket_fd at_header t spc dev socket h = record {
  lost = h;
  fewer = omega arith;
}
cmd_turn-IsAfter dev_fd sys_status socket_fd (in_header fd) t spc dev socket h = record {
  lost = h;
  fewer = ground arith;
}
cmd_turn-IsAfter dev_fd sys_status socket_fd at_entity t spc dev socket h = record {
  lost = h;
  fewer = ground arith;
}
cmd_turn-IsAfter dev_fd sys_status socket_fd (in_entity fd) t spc dev socket h = record {
  lost = h;
  fewer = ground arith;
}
cmd_turn-IsAfter dev_fd sys_status socket_fd at_device t spc dev socket h = record {
  lost = h;
  fewer = ground arith;
}
cmd_turn-IsAfter dev_fd sys_status socket_fd gone t spc dev socket h = record {
  lost = h;
  fewer = omega arith;
}

passed-same : (pc : CmdPc) → passed pc pc ≡ 0
passed-same testing = refl
passed-same at_header = refl
passed-same (in_header fd) = refl
passed-same at_entity = refl
passed-same (in_entity fd) = refl
passed-same at_device = refl
passed-same gone = refl

in_hand-le : (pc : CmdPc) → in_hand pc ≤ 1
unfolding in_hand
in_hand-le pc = ground arith

turn-IsAfter :
    (dev_fd : ℤ) (e : Event) (c : Child) → is_neg c.socket_fd ≡ true → IsAfter c (turn dev_fd e c)
unfolding turn
turn-IsAfter dev_fd cmd c h =
    cmd_turn-IsAfter dev_fd c.sys_status c.socket_fd c.cmd_pc c.cmd c.status_pc c.status_dev
      c.status_socket h
turn-IsAfter dev_fd status c h =
    let (lost, same) = status_turn-lost c.status_pc c h in
    record {
      lost = lost;
      fewer =
          subst (λ pc. passed c.cmd_pc pc + in_hand pc ≤ in_hand c.cmd_pc) (sym same)
            (omega (arith, passed-same c.cmd_pc));
    }
turn-IsAfter dev_fd sigint c h = record { lost = h; fewer = omega (arith, passed-same c.cmd_pc) }

run-lost :
    (dev_fd : ℤ) (events : List Event) (c : Child)
    → is_neg c.socket_fd ≡ true
    → (is_neg (run dev_fd events c).socket_fd ≡ true)
      × (frames_passed dev_fd events c ≤ in_hand c.cmd_pc)
unfolding run frames_passed
run-lost dev_fd [] c h = (h, omega arith)
run-lost dev_fd (e ∷ events) c h =
    let one = turn-IsAfter dev_fd e c h in
    let rest = run-lost dev_fd events (turn dev_fd e c) one.lost in
    (rest.0, omega (arith, one.fewer, rest.1))

-- Once the shared descriptor is negative, it stays so, and in whatever order the two threads and the signal
-- take their turns, at most one more frame is passed to the device.
frames_passed-lost :
    (dev_fd : ℤ) (events : List Event) (c : Child)
    → is_neg c.socket_fd ≡ true
    → (is_neg (run dev_fd events c).socket_fd ≡ true) × (frames_passed dev_fd events c ≤ 1)
frames_passed-lost dev_fd events c h =
    let (lost, fewer) = run-lost dev_fd events c h in
    (lost, omega (arith, fewer, in_hand-le c.cmd_pc))

failure-lost :
    (pc : StatusPc) (c : Child) (fd : ℤ) (bs : List ℕ) (ret : ℤ)
    → pc ≡ in_send fd bs
    → (writen fd c.status_socket bs (length bs)).ret ≡ some ret
    → (ret ==ℤ pos (length bs)) ≡ false
    → is_neg (status_turn pc c).socket_fd ≡ true
unfolding status_turn
failure-lost pc c fd bs ret at e q = ground arith

-- When a transfer to the client has come back with anything but its length, the turn of the status thread
-- makes the shared descriptor negative, and it stays so; in whatever order the two threads and the signal
-- take their turns from then on, at most one more frame is passed to the device, and at most five more turns
-- of the command thread bring it from one call or test to the next, or out of its loop.
pub frames_passed-after_failure :
    (dev_fd : ℤ) (events : List Event) (c : Child) (fd : ℤ) (bs : List ℕ) (ret : ℤ)
    → c.status_pc ≡ in_send fd bs
    → (writen fd c.status_socket bs (length bs)).ret ≡ some ret
    → (ret ==ℤ pos (length bs)) ≡ false
    → (is_neg (run dev_fd events (turn dev_fd status c)).socket_fd ≡ true)
      × (frames_passed dev_fd events (turn dev_fd status c) ≤ 1)
      × (moves dev_fd events (turn dev_fd status c) ≤ 5)
unfolding turn
frames_passed-after_failure dev_fd events c fd bs ret at e q =
    let d = status_turn c.status_pc c in
    let lost = failure-lost c.status_pc c fd bs ret at e q in
    let (stays, fewer) = frames_passed-lost dev_fd events d lost in
    (stays, fewer, moves-lost dev_fd events d lost)
