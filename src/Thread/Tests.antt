-- ===== src/Thread/Tests.antt =====
-- The thread helpers at concrete results of their calls.
use itrace.Prelude.{◌≡◌, refl, true, false, pos, minus_one}
use itrace.Thread.{create_detached_pthread, thread_is_running}

-- `kill` has failed.
still_running : thread_is_running minus_one ≡ 1
unfolding thread_is_running
still_running = refl

not_created :
    create_detached_pthread
      (record { attr_init = pos 0; attr_setdetachstate = pos 0; create = pos 11 })
    ≡ record { err = pos 11; thread = false; destroyed = true }
unfolding create_detached_pthread
not_created = refl
