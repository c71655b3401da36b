-- ===== src/Lifecycle.antt =====
-- cmd_status_trans/server.c and acq_data_trans/server.c: the parent process, which accepts a client,
-- ends the child of the client before, and forks a child for the new one; and the thread of each
-- process that clears up when the system is stopped. The two servers share this code but for how
-- they fill a `struct ProcSource`, and for `clear_thread`.
pub mod Sources
pub mod Children
pub mod Clearing
pub mod Signals
mod Tests
use itrace.Prelude.{
  ℕ, zero, suc, ◌==◌, List, [], ◌∷◌, ◌++◌, Option, none, some, Bool, true, false, ◌&&◌, not,
  if◌then◌else◌, ℤ, pos, minus_one, is_pos,
}
use itrace.General.{SystemStatus, running, stop, KillResult, is_process_alive}
use itrace.Lifecycle.Sources.{ProcSource}

-- What `fork` returns: 0 in the child, the child's number (n + 1) in the parent, or -1.
pub data ForkResult : Type 0 where
  in_child : ForkResult
  in_parent : ℕ → ForkResult
  fork_failed : ForkResult

-- One turn at `ACCEPT_AGAIN`, with what the system calls of the turn give.
pub data Turn : Type 0 where
  -- `accept` fails; the status that is read, and whether a `listen` succeeds.
  refused : (status : SystemStatus) → (listens : Bool) → Turn
  -- A client; the answers of `kill(child_pid, 0)`, of `fork`, and whether a thread is created.
  client : (alive : List KillResult) → ForkResult → (created : Bool) → Turn

-- The variables of the parent, the source that its `clear_thread` was given, and the children that
-- it forked and those that it sent SIGINT, the latest first.
pub record Parent : Type 0 where
  pub listen_fd : ℤ
  pub child_pid : ℤ
  pub has_clear_thread : Bool
  pub clear_source : Option ProcSource
  pub forked : List ℤ
  pub killed : List ℤ

pub data Next : Type 0 where
  accept_again : Next
  exit_close : Next  -- `goto ExitCloseListenFd`
  child : Next  -- the code of the child follows
  waiting : Next  -- the child before is still alive

-- `while(is_process_alive(child_pid) == 1)`, over the answers of `kill`; `false` while it goes on.
reap : List KillResult → Bool
reap [] = false
reap (k ∷ answers) = let rest = reap answers in if is_process_alive k == 1 then rest else true

abbrev is_stop : SystemStatus → Bool
is_stop running = false
is_stop stop = true

-- `fill` makes the source of the parent's `clear_thread` of `listen_fd` and `child_pid`.
module _ (fill : ℤ → ℤ → ProcSource) where
  -- After `fork` in the parent, with `child_pid` set.
  pub in_parent_branch : (created : Bool) → Parent → Next × Parent
  in_parent_branch created p =
      if p.has_clear_thread
      then (accept_again, p)
      else if created
      then (
        accept_again,
        record p { has_clear_thread = true; clear_source = some (fill p.listen_fd p.child_pid) },
      )
      else (exit_close, p)

  fork_child : ForkResult → (created : Bool) → Parent → Next × Parent
  unfolding in_parent_branch
  fork_child in_child created p = (child, record p { child_pid = pos 0 })
  fork_child (in_parent n) created p =
      in_parent_branch created
        (record p { child_pid = pos (suc n); forked = pos (suc n) ∷ p.forked })
  fork_child fork_failed created p = in_parent_branch created (record p { child_pid = minus_one })

  pub turn : Turn → Parent → Next × Parent
  unfolding fork_child
  turn (refused status listens) p =
      if not p.has_clear_thread && is_stop status
      then (exit_close, p)
      else if is_pos p.listen_fd
      then (accept_again, p)
      else if listens
      then (accept_again, p)
      else (exit_close, p)
  turn (client alive fork created) p =
      if is_pos p.child_pid
      then (let p' : Parent = record p { killed = p.child_pid ∷ p.killed } in
          if reap alive then fork_child fork created p' else (waiting, p'))
      else fork_child fork created p

  -- The loop, over the turns.
  pub serve : List Turn → Parent → Next × Parent
  serve [] p = (accept_again, p)
  serve (t ∷ turns) p =
      let (next, p') = turn t p in elim next [ accept_again ↦ serve turns p' | n ↦ (n, p') ]

-- The parent when it first listens.
abbrev pub parent_start : ℤ → Parent
parent_start listen_fd = record {
  listen_fd = listen_fd;
  child_pid = pos 0;
  has_clear_thread = false;
  clear_source = none;
  forked = [];
  killed = [];
}
