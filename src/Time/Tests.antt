-- ===== src/Time/Tests.antt =====
-- The tag of a fixed date and time.
use itrace.Prelude.{◌≡◌, refl, [], ◌∷◌}
use itrace.Time.{Tm, print_digits, print_padded, get_date_str}

abbrev now : Tm
now = record { tm_year = 118; tm_mon = 11; tm_mday = 5; tm_hour = 23; tm_min = 7; tm_sec = 60 }

-- "2018-12-05"
dashed :
    get_date_str 0x2d now ≡ 0x32 ∷ 0x30 ∷ 0x31 ∷ 0x38 ∷ 0x2d ∷ 0x31 ∷ 0x32 ∷ 0x2d ∷ 0x30 ∷ 0x35 ∷ []
unfolding get_date_str print_padded print_digits
dashed = refl
