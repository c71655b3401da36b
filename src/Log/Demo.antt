-- ===== src/Log/Demo.antt =====
-- private_libary/log_type/main.c: a line in each level.
use itrace.Prelude.{ℕ, ◌≡◌, refl, List, ◌++◌}
use itrace.Log.{
  level, is_level, printc, codes, msg_fatal, msg_error, msg_warn, msg_info, msg_debug, msg_trace,
}

-- What `main` prints.
main : List ℕ
main =
    codes "Hello World!\n"
    ++ (printc (level msg_info) (codes "MSG_INFO\n")
        ++ (printc (level msg_warn) (codes "MSG_WARN\n")
            ++ (printc (level msg_debug) (codes "MSG_DEBUG\n")
                ++ (printc (level msg_error) (codes "MSG_ERROR\n")
                    ++ (printc (level msg_fatal) (codes "MSG_FATAL\n")
                        ++ printc (level msg_trace) (codes "MSG_TRACE\n"))))))

-- The line of `MSG_DEBUG` is missing.
printed :
    main
    ≡ codes "Hello World!\n"
      ++ (printc (level msg_info) (codes "MSG_INFO\n")
          ++ (printc (level msg_warn) (codes "MSG_WARN\n")
              ++ (printc (level msg_error) (codes "MSG_ERROR\n")
                  ++ (printc (level msg_fatal) (codes "MSG_FATAL\n")
                      ++ printc (level msg_trace) (codes "MSG_TRACE\n")))))
unfolding main printc is_level
printed = refl
