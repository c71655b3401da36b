-- ===== src/Cmd/Child/Ending.antt =====
-- cmd_status_trans/server.c: how far the command thread still comes when the status thread has overwritten the
-- descriptor that they share.
use itrace.Prelude.{
  ℕ, ◌+◌, ◌≤◌, ◌≡◌, refl, ap, subst, sym, List, [], ◌∷◌, true, if◌then◌else◌, ℤ, is_neg, arith,
}
use itrace.Cmd.Child.{
  recv, CmdPc, testing, at_header, in_header, at_entity, in_entity, at_device, gone, StatusPc,
  Child, cmd_turn, status_turn, Event, cmd, status, sigint, turn,
}

pub status_turn-lost :
    (pc : StatusPc) (c : Child)
    → is_neg c.socket_fd ≡ true
    → (is_neg (status_turn pc c).socket_fd ≡ true) × ((status_turn pc c).cmd_pc ≡ c.cmd_pc)
unfolding status_turn
status_turn-lost pc c h = ground arith

cmd_turn-lost :
    (dev_fd : ℤ) (pc : CmdPc) (c : Child)
    → is_neg c.socket_fd ≡ true
    → is_neg (cmd_turn dev_fd pc c).socket_fd ≡ true
unfolding cmd_turn
cmd_turn-lost dev_fd pc c h = ground arith

-- Whether the command thread has come from one call or test to another, or out of its loop; a turn that
-- blocks leaves it where it was.
abbrev pub moved : (before after : CmdPc) → ℕ
moved testing testing = 0
moved at_header at_header = 0
moved (in_header fd) (in_header fd') = 0
moved at_entity at_entity = 0
moved (in_entity fd) (in_entity fd') = 0
moved at_device at_device = 0
moved gone gone = 0
moved pc pc' = 1

-- How often that happens in `events`.
pub moves : (dev_fd : ℤ) → List Event → Child → ℕ
moves dev_fd [] c = 0
moves dev_fd (e ∷ events) c =
    moved c.cmd_pc (turn dev_fd e c).cmd_pc + moves dev_fd events (turn dev_fd e c)

-- How often it can still happen when the client is lost.
rank : CmdPc → ℕ
rank testing = 3
rank at_header = 2
rank (in_header fd) = if is_neg fd then 1 else 4
rank at_entity = 2
rank (in_entity fd) = if is_neg fd then 1 else 5
rank at_device = 4
rank gone = 0

Closer : (before after : CmdPc) → Type 0
Closer before after = moved before after + rank after ≤ rank before

cmd_turn-Closer :
    (dev_fd : ℤ) (pc : CmdPc) (c : Child)
    → c.cmd_pc ≡ pc
    → is_neg c.socket_fd ≡ true
    → Closer pc (cmd_turn dev_fd pc c).cmd_pc
unfolding cmd_turn rank recv Closer
cmd_turn-Closer dev_fd testing c e h = ground arith
cmd_turn-Closer dev_fd at_header c e h = ground arith
cmd_turn-Closer dev_fd (in_header fd) c e h = ground arith
cmd_turn-Closer dev_fd at_entity c e h = ground arith
cmd_turn-Closer dev_fd (in_entity fd) c e h = ground arith
cmd_turn-Closer dev_fd at_device c e h = ground arith
cmd_turn-Closer dev_fd gone c e h = ground (arith, ap (λ pc. moved gone pc + rank pc) e)

Closer-same : (pc : CmdPc) → Closer pc pc
unfolding Closer
Closer-same testing = omega arith
Closer-same at_header = omega arith
Closer-same (in_header fd) = omega arith
Closer-same at_entity = omega arith
Closer-same (in_entity fd) = omega arith
Closer-same at_device = omega arith
Closer-same gone = omega arith

turn-Closer :
    (dev_fd : ℤ) (e : Event) (c : Child)
    → is_neg c.socket_fd ≡ true
    → (is_neg (turn dev_fd e c).socket_fd ≡ true) × Closer c.cmd_pc (turn dev_fd e c).cmd_pc
unfolding turn
turn-Closer dev_fd cmd c h =
    (cmd_turn-lost dev_fd c.cmd_pc c h, cmd_turn-Closer dev_fd c.cmd_pc c refl h)
turn-Closer dev_fd status c h =
    let (lost, same) = status_turn-lost c.status_pc c h in
    (lost, subst (Closer c.cmd_pc) (sym same) (Closer-same c.cmd_pc))
turn-Closer dev_fd sigint c h = (h, Closer-same c.cmd_pc)

rank-le : (pc : CmdPc) → rank pc ≤ 5
unfolding rank
rank-le pc = ground arith

run-moves :
    (dev_fd : ℤ) (events : List Event) (c : Child)
    → is_neg c.socket_fd ≡ true
    → moves dev_fd events c ≤ rank c.cmd_pc
unfolding moves Closer
run-moves dev_fd [] c h = omega arith
run-moves dev_fd (e ∷ events) c h =
    let (lost, closer) = turn-Closer dev_fd e c h in
    omega (arith, closer, run-moves dev_fd events (turn dev_fd e c) lost)

-- While the descriptor is negative, at most five turns bring the command thread on.
pub moves-lost :
    (dev_fd : ℤ) (events : List Event) (c : Child)
    → is_neg c.socket_fd ≡ true
    → moves dev_fd events c ≤ 5
moves-lost dev_fd events c h = omega (arith, run-moves dev_fd events c h, rank-le c.cmd_pc)
