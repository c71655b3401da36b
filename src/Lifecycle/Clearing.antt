-- ===== src/Lifecycle/Clearing.antt =====
-- `clear_thread` of both servers (cmd_status_trans/server.c, acq_data_trans/server.c): what a process
-- does when the system is stopped.
use itrace.Prelude.{
  ℕ, zero, suc, ◌≡◌, refl, List, [], ◌∷◌, ◌++◌, Option, none, some, Bool, true, if◌then◌else◌,
  replicate, ℤ, pos, minus_one, is_pos, is_neg, get_or, arith,
}
use itrace.General.{SystemStatus, running, stop, KillResult}
use itrace.Lifecycle.Sources.{
  ProcSource, cmd_parent_source, cmd_child_source, acq_parent_source, acq_child_source,
}
use itrace.Lifecycle.{
  in_child, in_parent, fork_failed, Turn, refused, client, Parent, in_parent_branch, turn, serve,
  parent_start,
}

pub data Effect : Type 0 where
  kill_int : ℤ → Effect  -- `kill(pid, SIGINT)`
  wait_child : Effect
  reset : ℤ → Effect  -- `reset_hardware(fd)`
  close : ℤ → Effect
  free : ℕ → Effect
  exit_process : Effect

-- The two `for` loops.
close_all : List ℤ → List Effect
close_all [] = []
close_all (f ∷ fd) = let rest = close_all fd in if is_pos f then close f ∷ rest else rest

free_all : List (Option ℕ) → List Effect
free_all [] = []
free_all (none ∷ mem) = free_all mem
free_all (some m ∷ mem) = free m ∷ free_all mem

-- The part of cmd_status_trans' `clear_thread` behind its loop.
pub cmd_clear : ProcSource → List Effect
unfolding close_all free_all
cmd_clear sour =
    (if is_pos sour.child_pid
      then kill_int sour.child_pid ∷ wait_child ∷ []
      else if is_neg sour.child_pid
      then []
      else reset (get_or sour.fd 0 minus_one) ∷ [])
    ++ (close_all sour.fd ++ (free_all sour.mem ++ exit_process ∷ []))

-- acq_data_trans' `clear_thread` leaves its loop by `goto Clear`, past the `kill` and the `munmap`.
pub acq_clear : ProcSource → List Effect
unfolding close_all
acq_clear sour = close_all sour.fd ++ exit_process ∷ []

-- The loop over the wake-ups of the semaphore, each with the status that is read; nothing is done
-- until the status is `Stop`.
unfoldable pub clear_thread :
    (ProcSource → List Effect) → List SystemStatus → ProcSource → List Effect
clear_thread clear [] sour = []
clear_thread clear (running ∷ wakes) sour = clear_thread clear wakes sour
clear_thread clear (stop ∷ wakes) sour = clear sour

-- After its first client the parent's source is set once and for all.
module _ (fill : ℤ → ℤ → ProcSource) where
  in_parent_branch-keeps :
      (created : Bool) (p : Parent) (s : ProcSource)
      → p.has_clear_thread ≡ true
      → p.clear_source ≡ some s
      → let r = in_parent_branch fill created p in
        (r.1.has_clear_thread ≡ true) × (r.1.clear_source ≡ some s)
  unfolding in_parent_branch
  in_parent_branch-keeps created p s h e = ground arith

  turn-keeps :
      (t : Turn) (p : Parent) (s : ProcSource)
      → p.has_clear_thread ≡ true
      → p.clear_source ≡ some s
      → let r = turn fill t p in (r.1.has_clear_thread ≡ true) × (r.1.clear_source ≡ some s)
  unfolding turn
  turn-keeps (refused status listens) p s h e = ground arith
  turn-keeps (client alive in_child created) p s h e = ground arith
  turn-keeps (client alive (in_parent n) created) p s h e = ground arith
  turn-keeps (client alive fork_failed created) p s h e = ground arith

  serve-keeps :
      (turns : List Turn) (p : Parent) (s : ProcSource)
      → p.has_clear_thread ≡ true
      → p.clear_source ≡ some s
      → (serve fill turns p).1.clear_source ≡ some s
  unfolding serve
  serve-keeps [] p s h e = e
  serve-keeps (t ∷ turns) p s h e =
      ground (arith, turn-keeps t p s h e, serve-keeps turns (turn fill t p).1 s)

  first-source :
      (alive : List KillResult) (n : ℕ) (turns : List Turn) (listen_fd : ℤ)
      → (serve fill
          (client alive (in_parent n) true ∷ turns)
          (parent_start listen_fd)).1.clear_source
        ≡ some (fill listen_fd (pos (suc n)))
  unfolding serve turn
  first-source alive n turns listen_fd = ground (
    arith,
    serve-keeps turns
        (record {
          listen_fd = listen_fd;
          child_pid = pos (suc n);
          has_clear_thread = true;
          clear_source = some (fill listen_fd (pos (suc n)));
          forked = pos (suc n) ∷ [];
          killed = [];
        })
        (fill listen_fd (pos (suc n))),
  )

clear_thread-wakes :
    (clear : ProcSource → List Effect) (k : ℕ) (later : List SystemStatus) (s : ProcSource)
    → clear_thread clear (replicate k running ++ stop ∷ later) s ≡ clear s
unfolding clear_thread
clear_thread-wakes clear zero later s = refl
clear_thread-wakes clear (suc k) later s = clear_thread-wakes clear k later s

-- Once cmd_status_trans' parent has forked a child for its first client, and whatever happens
-- after (clients that replace one another included), its `clear_thread` sends SIGINT to that first
-- child, waits, closes the listening socket and exits, when it wakes with the system stopped.
pub cmd_clear-first_child :
    (alive : List KillResult) (n fd : ℕ) (turns : List Turn) (wakes later : List SystemStatus)
    (k : ℕ)
    → wakes ≡ replicate k running ++ stop ∷ later
    → let p =
        (serve cmd_parent_source
          (client alive (in_parent n) true ∷ turns)
          (parent_start (pos (suc fd)))).1 in
      (s : ProcSource) × (p.clear_source ≡ some s)
      × (clear_thread cmd_clear wakes s
          ≡ kill_int (pos (suc n)) ∷ wait_child ∷ close (pos (suc fd)) ∷ exit_process ∷ [])
unfolding cmd_clear
cmd_clear-first_child alive n fd turns wakes later k e =
    let s = cmd_parent_source (pos (suc fd)) (pos (suc n)) in
    (
      s,
      first-source cmd_parent_source alive n turns (pos (suc fd)),
      rw e (clear_thread-wakes cmd_clear k later s),
    )

-- The same of acq_data_trans' parent: its `clear_thread` only closes the listening socket and
-- exits. It sends no child a signal.
acq_clear-no_kill :
    (alive : List KillResult) (n fd : ℕ) (turns : List Turn) (wakes later : List SystemStatus)
    (k : ℕ)
    → wakes ≡ replicate k running ++ stop ∷ later
    → let p =
        (serve acq_parent_source
          (client alive (in_parent n) true ∷ turns)
          (parent_start (pos (suc fd)))).1 in
      (s : ProcSource) × (p.clear_source ≡ some s)
      × (clear_thread acq_clear wakes s ≡ close (pos (suc fd)) ∷ exit_process ∷ [])
unfolding acq_clear
acq_clear-no_kill alive n fd turns wakes later k e =
    let s = acq_parent_source (pos (suc fd)) (pos (suc n)) in
    (
      s,
      first-source acq_parent_source alive n turns (pos (suc fd)),
      rw e (clear_thread-wakes acq_clear k later s),
    )

-- When it wakes with the system stopped, the `clear_thread` of a child closes every descriptor
-- that the child was given, in order, and exits; that of cmd_status_trans resets the hardware
-- first, and neither frees memory.
pub child_clear :
    (dev conn dma_r dma_w socket_r socket_w data_0 data_1 : ℕ) (wakes later : List SystemStatus)
    (k : ℕ)
    → wakes ≡ replicate k running ++ stop ∷ later
    → (clear_thread cmd_clear wakes (cmd_child_source (pos (suc dev)) (pos (suc conn)))
        ≡ reset (pos (suc dev))
          ∷ close (pos (suc dev))
          ∷ close (pos (suc conn))
          ∷ exit_process
          ∷ [])
      × (clear_thread acq_clear wakes (
            acq_child_source
              (pos (suc dev))
              (pos (suc conn))
              (pos (suc dma_r))
              (pos (suc dma_w))
              (pos (suc socket_r))
              (pos (suc socket_w))
              data_0
              data_1)
          ≡ close (pos (suc dev))
            ∷ close (pos (suc conn))
            ∷ close (pos (suc dma_r))
            ∷ close (pos (suc dma_w))
            ∷ close (pos (suc socket_r))
            ∷ close (pos (suc socket_w))
            ∷ exit_process
            ∷ [])
unfolding cmd_clear acq_clear
child_clear dev conn dma_r dma_w socket_r socket_w data_0 data_1 wakes later k e = (
  rw e (clear_thread-wakes cmd_clear k later (cmd_child_source _ _)),
  rw e (clear_thread-wakes acq_clear k later _),
)
