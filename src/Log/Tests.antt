-- ===== src/Log/Tests.antt =====
-- `printc` (private_libary/log_type/log_type.h) at concrete texts.
use itrace.Prelude.{◌≡◌, refl, [], ◌∷◌, ◌++◌, some, true, false}
use itrace.Log.{level, choice, is_level, printc, codes, msg_fatal, msg_error, msg_warn, msg_info}
use itrace.Log.Reading.{read_line, is_empty, printc-read_line}

warning :
    printc (level msg_warn) (codes "bad pipe\n")
    ≡ 0x1b ∷ codes "[0;33m"
      ++ (0x1b ∷ codes "[7m[Warning]"
          ++ (0x1b ∷ codes "[0;33m: bad pipe\n" ++ (0x1b ∷ codes "[0m")))
unfolding printc is_level
warning = refl

-- Any other first level than `MSG_FATAL` would come out as `MSG_INFO`.
misread : printc (choice true msg_warn msg_error) [] ≡ printc (level msg_info) []
unfolding printc is_level
misread = refl

printc-read_line_example :
    (read_line (printc (level msg_fatal) (0x1b ∷ codes "[0m"))
      ≡ some (msg_fatal, 0x1b ∷ codes "[0m"))
    × (is_empty (printc (level msg_fatal) (0x1b ∷ codes "[0m")) ≡ false)
    × (read_line (printc (choice false msg_info msg_error) (0x1b ∷ codes "[0m"))
        ≡ some (msg_error, 0x1b ∷ codes "[0m"))
printc-read_line_example = printc-read_line msg_fatal false (0x1b ∷ codes "[0m")
