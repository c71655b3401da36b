-- ===== src/Cmd/Child/StatusAlone.antt =====
-- cmd_status_trans/server.c: while the other thread does not move, the turns of the status thread are the loop of
-- `send_status_data_thread`.
use itrace.Prelude.{
  ℕ, zero, suc, ◌+◌, ◌≡◌, refl, ◌∙◌, ap, List, [], ◌∷◌, if◌then◌else◌, ℤ, replicate,
}
use itrace.Posix.{Answer, read}
use itrace.General.{running}
use itrace.Cmd.Status.{
  max_read_len_once, StatusThread, Round, again, device_lost, waiting, blocked, read_status,
  Outcome, left, status_loop,
}
use itrace.Cmd.Child.Runs.{run-more}
use itrace.Cmd.Child.{is_stop, StatusPc, testing, at_read, Child, status_turn, status}
use itrace.Cmd.Child.StatusTurns.{
  status_of, with_status, StandsAfter, StandsAt, Turns, before, here, read-Turns,
}

-- From the `read` on, by the answers of the device.
device-Turns :
    (dev_fd : ℤ) (answers : List Answer) (pending : List ℕ) (c : Child)
    → let d : Child = record c {
      status_pc = at_read;
      status_dev = record { pending = pending; answers = answers };
    } in
      let r = read_status (status_of d) in Turns dev_fd d (StandsAfter r.0) r.1
unfolding read_status status_turn
device-Turns dev_fd [] pending c =
    here dev_fd
      (record c { status_pc = at_read; status_dev = record { pending = pending; answers = [] } })
      at_read _ refl refl
device-Turns dev_fd (a ∷ rest) pending c =
    read-Turns dev_fd (read a max_read_len_once pending) rest
      (record c {
        status_pc = at_read;
        status_dev = record { pending = pending; answers = a ∷ rest };
      })
      refl refl

round-Turns :
    (dev_fd : ℤ) (c : Child)
    → c.sys_status ≡ running
    → c.status_pc ≡ testing
    → let r = read_status (status_of c) in Turns dev_fd c (StandsAfter r.0) r.1
unfolding status_turn
round-Turns dev_fd c on at =
    before dev_fd c (status_of c) _ at_read _
      (ap (λ pc. status_turn pc c) at
        ∙ ap (λ st. record c { status_pc = if is_stop st then StatusPc.gone else at_read }) on)
      (device-Turns dev_fd c.status_dev.answers c.status_dev.pending c)

after_round :
    (dev_fd : ℤ) (c : Child) (u t : StatusThread) (Stands : StatusPc → Type 0)
    → Turns dev_fd c (StandsAfter again) u
    → Turns dev_fd (with_status c testing u) Stands t
    → Turns dev_fd c Stands t
after_round dev_fd c u t Stands first rest = record {
  turns = first.turns + rest.turns;
  status_pc = rest.status_pc;
  ran =
      run-more dev_fd status first.turns rest.turns c _ _
        (first.ran ∙ ap (λ pc. with_status c pc u) first.stands) rest.ran;
  stands = rest.stands;
}

-- While the system is running, some number of the status thread's turns alone do what the loop of
-- `send_status_data_thread` does in any number of rounds: they leave the same device, socket and descriptor,
-- with the thread at the next test, or out of its loop where the loop was left, or in a call where it
-- blocks; nothing else changes.
pub turns-status_loop :
    (dev_fd : ℤ) (k : ℕ) (c : Child)
    → c.sys_status ≡ running
    → c.status_pc ≡ testing
    → let r = status_loop (replicate k running) (status_of c) in Turns dev_fd c (StandsAt r.0) r.1
unfolding status_loop
turns-status_loop dev_fd zero c on at = here dev_fd c testing _ at refl
turns-status_loop dev_fd (suc k) c on at =
    go (read_status (status_of c)).0 (read_status (status_of c)).1 (round-Turns dev_fd c on at)
      (λ u. turns-status_loop dev_fd k (with_status c testing u) on refl)
  where
    go :
        (r : Round) (u : StatusThread)
        → Turns dev_fd c (StandsAfter r) u
        → ((u : StatusThread)
            → let q = status_loop (replicate k running) u in
              Turns dev_fd (with_status c testing u) (StandsAt q.0) q.1)
        → let q : Outcome × StatusThread = elim r [
          | again ↦ status_loop (replicate k running) u
          | r ↦ (left r, u)
        ] in
          Turns dev_fd c (StandsAt q.0) q.1
    go again u first rec = after_round dev_fd c u _ _ first (rec u)
    go device_lost u first rec = first
    go waiting u first rec = first
    go blocked u first rec = first
