-- ===== src/Lifecycle/Tests.antt =====
-- The parent and the clear threads (cmd_status_trans/server.c, acq_data_trans/server.c) at concrete
-- inputs.
use itrace.Prelude.{◌≡◌, refl, List, [], ◌∷◌, ◌++◌, some, true, pos}
use itrace.General.{SystemStatus, running, stop, delivered, kill_failed}
use itrace.Posix.{esrch}
use itrace.Lifecycle.Sources.{ProcSource, cmd_parent_source}
use itrace.Lifecycle.{in_parent, Turn, refused, client, serve, parent_start}
use itrace.Lifecycle.Children.{unkilled, serve-one_child}
use itrace.Lifecycle.Clearing.{
  kill_int, wait_child, close, exit_process, cmd_clear, clear_thread, cmd_clear-first_child,
}

-- The first client is replaced by a second, whose child is 200.
abbrev second : List Turn
second =
    refused running true ∷ client (delivered ∷ kill_failed esrch ∷ []) (in_parent 199) true ∷ []

abbrev turns : List Turn
turns = client [] (in_parent 99) true ∷ second

abbrev wakes : List SystemStatus
wakes = running ∷ stop ∷ []

serve-one_child_example :
    let r = serve cmd_parent_source turns (parent_start (pos 3)) in
    r.1.forked ≡ unkilled r.0 r.1 ++ r.1.killed
serve-one_child_example = serve-one_child cmd_parent_source turns (pos 3)

cmd_clear-first_child_example :
    let p = (serve cmd_parent_source turns (parent_start (pos 3))).1 in
    (s : ProcSource) × (p.clear_source ≡ some s)
    × (clear_thread cmd_clear wakes s
        ≡ kill_int (pos 100) ∷ wait_child ∷ close (pos 3) ∷ exit_process ∷ [])
cmd_clear-first_child_example = cmd_clear-first_child [] 99 2 second wakes [] 1 refl
