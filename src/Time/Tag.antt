-- ===== src/Time/Tag.antt =====
-- What `get_date_time_tag` prints can be read back.
use itrace.Prelude.{
  ℕ, ◌+◌, ◌*◌, ◌-◌, ◌/◌, ◌%◌, ◌≡◌, ◌≤◌, ◌<◌, refl, List, [], ◌∷◌, length, take, drop, arith,
}
use itrace.Time.{Tm, print_digits, print_padded, get_date_str, get_time_str, get_date_time_tag}

pub print_padded-two : (n : ℕ) → n < 100 → print_padded 2 n ≡ (0x30 + n / 10) ∷ (0x30 + n % 10) ∷ []
unfolding print_padded print_digits
print_padded-two n h = ground arith

print_padded-four :
    (n : ℕ)
    → n < 10000
    → print_padded 4 n
      ≡ (0x30 + n / 1000) ∷ (0x30 + n / 100 % 10) ∷ (0x30 + n / 10 % 10) ∷ (0x30 + n % 10) ∷ []
unfolding print_padded print_digits
print_padded-four n h = ground arith

-- What the printing of two and of four digits gives is read as a number.
abbrev number : (value : ℕ) → List ℕ → ℕ
number value [] = value
number value (c ∷ s) = number (value * 10 + (c - 0x30)) s

-- A tag read back: the date before the underscore, the time behind it.
abbrev read_tag : List ℕ → Tm
read_tag tag = record {
  tm_year = number 0 (take 4 tag) - 1900;
  tm_mon = number 0 (take 2 (drop 4 tag)) - 1;
  tm_mday = number 0 (take 2 (drop 6 tag));
  tm_hour = number 0 (take 4 (drop 9 tag));
  tm_min = number 0 (take 2 (drop 13 tag));
  tm_sec = number 0 (take 2 (drop 15 tag));
}

-- The ranges of the C library, and a year of four digits.
pub record InRange (t : Tm) : Type 0 where
  pub year : t.tm_year + 1900 < 10000
  pub mon : t.tm_mon < 12
  pub mday : t.tm_mday ≤ 31
  pub hour : t.tm_hour < 24
  pub minute : t.tm_min < 60
  pub second : t.tm_sec ≤ 60

number-two : (n : ℕ) → n < 100 → number 0 ((0x30 + n / 10) ∷ (0x30 + n % 10) ∷ []) ≡ n
number-two n h = omega arith

number-four :
    (n : ℕ)
    → n < 10000
    → number 0
        ((0x30 + n / 1000) ∷ (0x30 + n / 100 % 10) ∷ (0x30 + n / 10 % 10) ∷ (0x30 + n % 10) ∷ [])
      ≡ n
number-four n h = omega arith

get_date_str-digits :
    (t : Tm)
    → InRange t
    → get_date_str 0 t
      ≡ (0x30 + (t.tm_year + 1900) / 1000)
        ∷ (0x30 + (t.tm_year + 1900) / 100 % 10)
        ∷ (0x30 + (t.tm_year + 1900) / 10 % 10)
        ∷ (0x30 + (t.tm_year + 1900) % 10)
        ∷ (0x30 + (t.tm_mon + 1) / 10)
        ∷ (0x30 + (t.tm_mon + 1) % 10)
        ∷ (0x30 + t.tm_mday / 10)
        ∷ (0x30 + t.tm_mday % 10)
        ∷ []
unfolding get_date_str
get_date_str-digits t r = rw (
  print_padded-four (t.tm_year + 1900) r.year,
  print_padded-two (t.tm_mon + 1) (omega (arith, r.mon)),
  print_padded-two t.tm_mday (omega (arith, r.mday)),
)

get_time_str-digits :
    (t : Tm)
    → InRange t
    → get_time_str 0 t
      ≡ (0x30 + t.tm_hour / 1000)
        ∷ (0x30 + t.tm_hour / 100 % 10)
        ∷ (0x30 + t.tm_hour / 10 % 10)
        ∷ (0x30 + t.tm_hour % 10)
        ∷ (0x30 + t.tm_min / 10)
        ∷ (0x30 + t.tm_min % 10)
        ∷ (0x30 + t.tm_sec / 10)
        ∷ (0x30 + t.tm_sec % 10)
        ∷ []
unfolding get_time_str
get_time_str-digits t r = rw (
  print_padded-four t.tm_hour (omega (arith, r.hour)),
  print_padded-two t.tm_min (omega (arith, r.minute)),
  print_padded-two t.tm_sec (omega (arith, r.second)),
)

-- For a date and a time in the ranges of the C library, with a year of four digits, the tag that
-- `get_date_time_tag` prints has 17 characters, and both can be read back from it.
get_date_time_tag-read :
    (date time : Tm)
    → InRange date
    → InRange time
    → (length (get_date_time_tag date time) ≡ 17)
      × (read_tag (get_date_time_tag date time) ≡ record {
        tm_year = date.tm_year;
        tm_mon = date.tm_mon;
        tm_mday = date.tm_mday;
        tm_hour = time.tm_hour;
        tm_min = time.tm_min;
        tm_sec = time.tm_sec;
      })
unfolding get_date_time_tag
get_date_time_tag-read date time d t =
    rw (get_date_str-digits date d, get_time_str-digits time t)
      (
        refl,
        ground (
          arith,
          number-four (date.tm_year + 1900) d.year,
          number-two (date.tm_mon + 1) (omega (arith, d.mon)),
          number-two date.tm_mday (omega (arith, d.mday)),
          number-four time.tm_hour (omega (arith, t.hour)),
          number-two time.tm_min (omega (arith, t.minute)),
          number-two time.tm_sec (omega (arith, t.second)),
        ),
      )
