-- ===== src/General/Banner.antt =====
-- general/general.c, `print_log`: the banner that both programs may print.
use itrace.Prelude.{ℕ, ◌≡◌, List, ◌++◌, some, true}
use itrace.Log.{level, printc, codes, msg_info}
use itrace.Log.Reading.{read_line, printc-read_line}

abbrev banner : List ℕ
banner =
    codes "+==============================\n"
    ++ (codes "####  ######  ########  ###### \n"
        ++ (codes " ##  ##    ##    ##    ##    ##\n"
            ++ (codes " ##  ##          ##    ##      \n"
                ++ (codes " ##  ##          ##     ###### \n"
                    ++ (codes " ##  ##          ##          ##\n"
                        ++ (codes " ##  ##    ##    ##    ##    ##\n"
                            ++ (codes "####  ######     ##     ###### \n"
                                ++ codes "+===========20181224==========+\n")))))))

print_log : List ℕ
print_log = printc (level msg_info) banner

-- It is an information, and is printed whole.
print_log_shown : read_line print_log ≡ some (msg_info, banner)
unfolding print_log
print_log_shown = (printc-read_line msg_info true banner).0
