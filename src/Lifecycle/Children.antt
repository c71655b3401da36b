-- ===== src/Lifecycle/Children.antt =====
-- The children of a server's parent process (cmd_status_trans/server.c, acq_data_trans/server.c).
use itrace.Prelude.{◌≡◌, refl, List, [], ◌∷◌, ◌++◌, Bool, if◌then◌else◌, ℤ, is_pos, arith}
use itrace.Lifecycle.Sources.{ProcSource}
use itrace.Lifecycle.{
  in_child, in_parent, fork_failed, Turn, refused, client, Parent, Next, accept_again, waiting,
  in_parent_branch, turn, serve, parent_start,
}

-- The children that may be alive: the latest one, if it has not been sent SIGINT.
abbrev pub unkilled : Next → Parent → List ℤ
unkilled waiting p = []
unkilled n p = if is_pos p.child_pid then p.child_pid ∷ [] else []

module _ (fill : ℤ → ℤ → ProcSource) where
  in_parent_branch-next :
      (created : Bool) (p : Parent)
      → let r = in_parent_branch fill created p in
        (unkilled r.0 r.1 ≡ unkilled accept_again p)
        × (r.1.forked ≡ p.forked)
        × (r.1.killed ≡ p.killed)
  unfolding in_parent_branch
  in_parent_branch-next created p = ground arith

  turn-children :
      (t : Turn) (p : Parent)
      → p.forked ≡ unkilled accept_again p ++ p.killed
      → let r = turn fill t p in r.1.forked ≡ unkilled r.0 r.1 ++ r.1.killed
  unfolding turn
  turn-children (refused status listens) p h = ground arith
  turn-children (client alive in_child created) p h = ground arith
  turn-children (client alive (in_parent n) created) p h = ground arith
  turn-children (client alive fork_failed created) p h = ground arith

  serve-children :
      (turns : List Turn) (p : Parent)
      → p.forked ≡ unkilled accept_again p ++ p.killed
      → let r = serve fill turns p in r.1.forked ≡ unkilled r.0 r.1 ++ r.1.killed
  unfolding serve
  serve-children [] p h = h
  serve-children (t ∷ turns) p h =
      ground (arith, turn-children t p h, serve-children turns (turn fill t p).1)

  -- However clients come and go, the children that the parent has forked are those that it has
  -- sent SIGINT and at most one more, the latest: there are never two children that were not told
  -- to end.
  pub serve-one_child :
      (turns : List Turn) (listen_fd : ℤ)
      → let r = serve fill turns (parent_start listen_fd) in
        r.1.forked ≡ unkilled r.0 r.1 ++ r.1.killed
  serve-one_child turns listen_fd = serve-children turns (parent_start listen_fd) refl
