-- ===== src/Cmd/Child/CmdTurns.antt =====
-- cmd_status_trans/server.c: turns of the command thread, each from where the thread stands to the state that
-- `read_frame` and its parts leave.
use itrace.Prelude.{
  ℕ, suc, ◌≡◌, refl, ◌∙◌, ap, Option, none, some, Bool, true, false, ltb, get_or, if◌then◌else◌, ℤ,
  pos, is_neg, ◌==ℤ◌, replicate, arith,
}
use itrace.Posix.{Source}
use itrace.General.{running, readn}
use itrace.Cmd.Net.{
  CmdThread, store, Round, again, header_lost, entity_lost, device_lost, blocked, pass_frame,
  read_entity, read_frame, Outcome, looping, stopped, left,
}
use itrace.Cmd.Child.{
  recv, received, skip_empty, is_stop, CmdPc, testing, at_header, in_header, at_entity, in_entity,
  at_device, gone, Child, cmd_turn, after_frame, cmd, turn, run,
}

-- Where the thread stands when a round has ended so.
abbrev IsWaiting : CmdPc → Type 0
IsWaiting (in_header fd) = Unit
IsWaiting (in_entity fd) = Unit
IsWaiting at_device = Unit
IsWaiting pc = ⊥

abbrev pub StandsAfter : Round → CmdPc → Type 0
StandsAfter again pc = pc ≡ testing
StandsAfter header_lost pc = pc ≡ gone
StandsAfter entity_lost pc = pc ≡ gone
StandsAfter device_lost pc = pc ≡ gone
StandsAfter blocked pc = IsWaiting pc

abbrev pub StandsAt : Outcome → CmdPc → Type 0
StandsAt looping pc = pc ≡ testing
StandsAt stopped pc = pc ≡ gone
StandsAt (left r) pc = StandsAfter r pc

-- Some turns of the command thread lead from `c` to the state `t` of the code; nothing else changes.
pub record Turns (dev_fd : ℤ) (c : Child) (Stands : CmdPc → Type 0) (t : CmdThread) : Type 0 where
  pub turns : ℕ
  pub cmd_pc : CmdPc
  pub ran : run dev_fd (replicate turns cmd) c ≡ record c { cmd = t; cmd_pc = cmd_pc }
  pub stands : Stands cmd_pc

device-Turns :
    (dev_fd : ℤ) (c : Child)
    → c.cmd_pc ≡ at_device
    → let r = pass_frame dev_fd c.cmd in Turns dev_fd c (StandsAfter r.0) r.1
unfolding run turn cmd_turn
device-Turns dev_fd c at = record {
  turns = 1;
  cmd_pc = after_frame (pass_frame dev_fd c.cmd).0;
  ran = ap (λ pc. cmd_turn dev_fd pc c) at;
  stands = go (pass_frame dev_fd c.cmd).0;
}
  where
    go : (r : Round) → StandsAfter r (after_frame r)
    go again = refl
    go header_lost = refl
    go entity_lost = refl
    go device_lost = refl
    go blocked = tt

pub before :
    (dev_fd : ℤ) (c : Child) (u t : CmdThread) (pc : CmdPc) (Stands : CmdPc → Type 0)
    → cmd_turn dev_fd c.cmd_pc c ≡ record c { cmd = u; cmd_pc = pc }
    → Turns dev_fd (record c { cmd = u; cmd_pc = pc }) Stands t
    → Turns dev_fd c Stands t
unfolding run turn
before dev_fd c u t pc Stands e r = record {
  turns = suc r.turns;
  cmd_pc = r.cmd_pc;
  ran = ap (run dev_fd (replicate r.turns cmd)) e ∙ r.ran;
  stands = r.stands;
}

pub here :
    (dev_fd : ℤ) (c : Child) (pc : CmdPc) (Stands : CmdPc → Type 0)
    → c.cmd_pc ≡ pc
    → Stands pc
    → Turns dev_fd c Stands c.cmd
unfolding run
here dev_fd c pc Stands e st = record {
  turns = 0;
  cmd_pc = pc;
  ran = ap (λ p. record c { cmd_pc = p }) e;
  stands = st;
}

recv-valid : (fd : ℤ) (s : Source) (n : ℕ) → is_neg fd ≡ false → recv fd s n ≡ readn s n
unfolding recv
recv-valid fd s n h = ground arith

-- The `readn` of the entity has come back with `o`.
entity_read-Turns :
    (dev_fd : ℤ) (o : Option ℤ) (len : ℕ) (fd : ℤ) (t : CmdThread) (c : Child)
    → let r : Round × CmdThread = elim o [
      | none ↦ (blocked, t)
      | some ret ↦ if ret ==ℤ pos len then pass_frame dev_fd t else (entity_lost, t)
    ] in
      let pc : CmdPc = elim o [
        | none ↦ in_entity fd
        | some ret ↦ if ret ==ℤ pos len then at_device else CmdPc.gone
      ] in
      Turns dev_fd (record c { cmd = t; cmd_pc = pc }) (StandsAfter r.0) r.1
entity_read-Turns dev_fd none len fd t c =
    here dev_fd (record c { cmd = t; cmd_pc = in_entity fd }) (in_entity fd) IsWaiting refl tt
entity_read-Turns dev_fd (some ret) len fd t c = go (ret ==ℤ pos len)
  where
    go :
        (b : Bool)
        → let r : Round × CmdThread = if b then pass_frame dev_fd t else (entity_lost, t) in
          Turns dev_fd
            (record c { cmd = t; cmd_pc = if b then at_device else CmdPc.gone })
            (StandsAfter r.0)
            r.1
    go true = device-Turns dev_fd (record c { cmd = t; cmd_pc = at_device }) refl
    go false =
        here dev_fd (record c { cmd = t; cmd_pc = gone }) gone (StandsAfter entity_lost) refl refl

entity-Turns :
    (dev_fd : ℤ) (c : Child)
    → is_neg c.socket_fd ≡ false
    → let r = read_entity dev_fd c.cmd in
      Turns dev_fd (record c { cmd_pc = at_entity }) (StandsAfter r.0) r.1
unfolding read_entity cmd_turn
entity-Turns dev_fd c valid =
    let len = get_or c.cmd.cmd_cache 0 0 in
    let fd = c.socket_fd in
    let r = readn c.cmd.socket len in
    let u : CmdThread = record c.cmd {
      socket = r.left;
      cmd_cache = store 1 r.stored c.cmd.cmd_cache;
    } in
    before dev_fd (record c { cmd_pc = at_entity }) c.cmd _ (in_entity fd) _ refl
      (before dev_fd (record c { cmd_pc = in_entity fd }) u _ _ _
        (ap (λ q. received len 1 (in_entity fd) at_device q (record c { cmd_pc = in_entity fd }))
          (recv-valid fd c.cmd.socket len valid))
        (entity_read-Turns dev_fd r.ret len fd u c))

-- The `readn` of the length byte has come back with `o`.
header_read-Turns :
    (dev_fd : ℤ) (o : Option ℤ) (fd : ℤ) (t : CmdThread) (c : Child)
    → is_neg c.socket_fd ≡ false
    → let r : Round × CmdThread = elim o [
      | none ↦ (blocked, t)
      | some ret ↦
          if ret ==ℤ pos 1
          then (if ltb (get_or t.cmd_cache 0 0) 1 then (again, t) else read_entity dev_fd t)
          else (header_lost, t)
    ] in
      let pc : CmdPc = elim o [
        | none ↦ in_header fd
        | some ret ↦ if ret ==ℤ pos 1 then at_entity else CmdPc.gone
      ] in
      Turns dev_fd (skip_empty (record c { cmd = t; cmd_pc = pc })) (StandsAfter r.0) r.1
header_read-Turns dev_fd none fd t c valid =
    here dev_fd (record c { cmd = t; cmd_pc = in_header fd }) (in_header fd) IsWaiting refl tt
header_read-Turns dev_fd (some ret) fd t c valid =
    go (ret ==ℤ pos 1) (ltb (get_or t.cmd_cache 0 0) 1)
  where
    go :
        (b empty : Bool)
        → let r : Round × CmdThread =
            if b then (if empty then (again, t) else read_entity dev_fd t) else (header_lost, t) in
          let pc : CmdPc = elim (if b then at_entity else CmdPc.gone) [
            | at_entity ↦ if empty then CmdPc.testing else at_entity
            | pc ↦ pc
          ] in
          Turns dev_fd (record c { cmd = t; cmd_pc = pc }) (StandsAfter r.0) r.1
    go true true =
        here dev_fd (record c { cmd = t; cmd_pc = testing }) testing (StandsAfter again) refl refl
    go true false = entity-Turns dev_fd (record c { cmd = t }) valid
    go false empty =
        here dev_fd (record c { cmd = t; cmd_pc = gone }) gone (StandsAfter header_lost) refl refl

pub frame-Turns :
    (dev_fd : ℤ) (c : Child)
    → c.sys_status ≡ running
    → is_neg c.socket_fd ≡ false
    → let r = read_frame dev_fd c.cmd in
      Turns dev_fd (record c { cmd_pc = testing }) (StandsAfter r.0) r.1
unfolding read_frame cmd_turn
frame-Turns dev_fd c on valid =
    let fd = c.socket_fd in
    let r = readn c.cmd.socket 1 in
    let u : CmdThread = record c.cmd {
      socket = r.left;
      cmd_cache = store 0 r.stored c.cmd.cmd_cache;
    } in
    before dev_fd (record c { cmd_pc = testing }) c.cmd _ at_header _
      (ap (λ st. record c { cmd_pc = if is_stop st then CmdPc.gone else at_header }) on)
      (before dev_fd (record c { cmd_pc = at_header }) c.cmd _ (in_header fd) _ refl
        (before dev_fd (record c { cmd_pc = in_header fd }) u _ _ _
          (ap
            (λ q.
              skip_empty
                (received 1 0 (in_header fd) at_entity q (record c { cmd_pc = in_header fd })))
            (recv-valid fd c.cmd.socket 1 valid))
          (header_read-Turns dev_fd r.ret fd u c valid)))
