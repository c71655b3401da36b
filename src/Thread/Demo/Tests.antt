-- ===== src/Thread/Demo/Tests.antt =====
-- The two counting threads (private_libary/linux_thread/main.c) at concrete turns.
use itrace.Prelude.{◌≡◌, refl, List, [], ◌∷◌, ◌++◌, true, false, replicate, arith}
use itrace.Thread.Demo.{
  polling, over, Who, first, second, main, run, turn, counter, demo_start, out_info_per_sec,
  main_turn,
}
use itrace.Thread.Demo.Places.{Output}
use itrace.Thread.Demo.Ends.{run-ends}

-- The second thread has taken half its turns when `main` ends.
abbrev turns : List Who
turns = replicate 21 second ++ (replicate 42 first ++ (main ∷ main ∷ main ∷ []))

turns-over : (run turns (demo_start true true)).main ≡ over
unfolding run turn demo_start counter out_info_per_sec main_turn
turns-over = refl

-- Without threads, `main` waits in its loop.
no_threads : (run (main ∷ main ∷ main ∷ []) (demo_start false false)).main ≡ polling
unfolding run turn demo_start counter main_turn
no_threads = refl

abbrev all_turns : List Who
all_turns = replicate 42 first ++ (main ∷ main ∷ replicate 42 second)

run-ends_example :
    Output true (run all_turns (demo_start true true)).first.printed
    × Output true (run all_turns (demo_start true true)).second.printed
    × ((run all_turns (demo_start true true)).stop ≡ 1)
    × ((run (main ∷ main ∷ main ∷ []) (run all_turns (demo_start true true))).main ≡ over)
run-ends_example = run-ends true true all_turns refl (omega arith) (omega arith)
