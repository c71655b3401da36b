-- ===== src/Time.antt =====
-- private_libary/time_extern_lib/time_extern_lib.c: the local time as text. A string is the bytes before
-- its terminator.
pub mod Tag
mod Demo
mod Tests
use itrace.Prelude.{
  ℕ, zero, suc, ◌+◌, ◌-◌, ◌/◌, ◌%◌, ◌==◌, ltb, if◌then◌else◌, List, [], ◌∷◌, ◌++◌, length,
  replicate,
}

-- The fields of `struct tm` that are printed.
pub record Tm : Type 0 where
  pub tm_year : ℕ
  pub tm_mon : ℕ
  pub tm_mday : ℕ
  pub tm_hour : ℕ
  pub tm_min : ℕ
  pub tm_sec : ℕ

-- `%d` of a number that is not negative; an `int` has ten digits at most.
unfoldable pub print_digits : (digits n : ℕ) → List ℕ
print_digits zero n = []
print_digits (suc digits) n =
    let ahead = print_digits digits (n / 10) in
    if ltb n 10 then (0x30 + n) ∷ [] else ahead ++ (0x30 + n % 10) ∷ []

-- `%04d` for the width 4, `%02d` for 2
pub print_padded : (width n : ℕ) → List ℕ
print_padded width n = replicate (width - length (print_digits 10 n)) 0x30 ++ print_digits 10 n

-- `%c` of the delimiter, in the format that has it.
abbrev delimiter : ℕ → List ℕ
delimiter delime = if delime == 0 then [] else delime ∷ []

pub get_date_str : (delime : ℕ) → Tm → List ℕ
get_date_str delime now =
    print_padded 4 (now.tm_year + 1900)
    ++ (delimiter delime
        ++ (print_padded 2 (now.tm_mon + 1) ++ (delimiter delime ++ print_padded 2 now.tm_mday)))

-- The hour has four digits, as the year has.
pub get_time_str : (delime : ℕ) → Tm → List ℕ
get_time_str delime now =
    print_padded 4 now.tm_hour
    ++ (delimiter delime
        ++ (print_padded 2 now.tm_min ++ (delimiter delime ++ print_padded 2 now.tm_sec)))

-- `date` and `time` are what the two calls of `localtime` give, which may be a second apart.
pub get_date_time_tag : (date time : Tm) → List ℕ
get_date_time_tag date time = get_date_str 0 date ++ 0x5f ∷ get_time_str 0 time
