-- ===== src/Lifecycle/Sources.antt =====
-- cmd_status_trans/server.c and acq_data_trans/server.c: `struct ProcSource`, and how the processes
-- fill it for their `clear_thread`.
use itrace.Prelude.{ℕ, List, ◌∷◌, Option, none, some, replicate, ℤ, pos, minus_one}

-- `mem` holds addresses; `none` is NULL.
pub record ProcSource : Type 0 where
  pub child_pid : ℤ
  pub fd : List ℤ
  pub mem : List (Option ℕ)

-- `init_proc_source`, the same in both servers.
abbrev init_proc_source : ProcSource
init_proc_source = record {
  child_pid = pos 0;
  fd = replicate 20 minus_one;
  mem = replicate 20 none;
}

-- The first entries of `fd` are set, the others stay as `init_proc_source` leaves them.
abbrev pub cmd_parent_source : (listen_fd child_pid : ℤ) → ProcSource
cmd_parent_source listen_fd child_pid = record init_proc_source {
  fd = listen_fd ∷ replicate 19 minus_one;
  child_pid = child_pid;
}

abbrev pub cmd_child_source : (cmd_status_fd conn_fd : ℤ) → ProcSource
cmd_child_source cmd_status_fd conn_fd = record init_proc_source {
  fd = cmd_status_fd ∷ conn_fd ∷ replicate 18 minus_one;
  child_pid = pos 0;
}

-- `dma_fd` is still -1 in the parent, and `child_pid` is not set.
abbrev pub acq_parent_source : (listen_fd child_pid : ℤ) → ProcSource
acq_parent_source listen_fd child_pid = record init_proc_source {
  fd = listen_fd ∷ minus_one ∷ replicate 18 minus_one;
}

abbrev pub acq_child_source :
    (dma_fd conn_fd dma_r dma_w socket_r socket_w : ℤ) → (data_0 data_1 : ℕ) → ProcSource
acq_child_source dma_fd conn_fd dma_r dma_w socket_r socket_w data_0 data_1 =
    record init_proc_source {
      fd = dma_fd ∷ conn_fd ∷ dma_r ∷ dma_w ∷ socket_r ∷ socket_w ∷ replicate 14 minus_one;
      mem = some data_0 ∷ some data_1 ∷ replicate 18 none;
    }
