-- ===== src/Time/Demo.antt =====
-- private_libary/time_extern_lib/main.c: the three strings of the local time, as it is at each call.
use itrace.Prelude.{ℕ, ◌≡◌, refl, List, [], ◌∷◌, ◌++◌}
use itrace.Log.{codes}
use itrace.Time.{Tm, print_digits, print_padded, get_date_str, get_time_str, get_date_time_tag}

-- "-->%s\n"
abbrev line : List ℕ → List ℕ
line s = codes "-->" ++ (s ++ 0x0a ∷ [])

-- What is printed, by what the four calls of `localtime` give.
main : (date time tag_date tag_time : Tm) → List ℕ
main date time tag_date tag_time =
    line (get_date_str (b'_') date)
    ++ (line (get_time_str (b'_') time) ++ line (get_date_time_tag tag_date tag_time))

abbrev now : Tm
now = record { tm_year = 118; tm_mon = 11; tm_mday = 5; tm_hour = 23; tm_min = 7; tm_sec = 60 }

printed : main now now now now ≡ codes "-->2018_12_05\n-->0023_07_60\n-->20181205_00230760\n"
unfolding main get_date_str get_time_str get_date_time_tag print_padded print_digits
printed = refl
