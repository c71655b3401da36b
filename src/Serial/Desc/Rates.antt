-- ===== src/Serial/Desc/Rates.antt =====
-- `get_baud_rate_from_desc` (private_libary/linux_serial_port/linux_serial_port.c) against the rates
-- in the names of the codes.
use itrace.Prelude.{
  ℕ, List, [], ◌∷◌, some, ◌==◌, ◌≡◌, ◌⊎◌, inl, inr, refl, arith, ==→eq, Bool-cases,
}
use itrace.Serial.Desc.{
  Speed, lookup, baud_rate_cases, get_baud_rate_from_desc, b4800, b9600, b19200, b115200, b0, b50,
  b75, b110, b134, b150, b200, b300, b600, b1200, b1800, b2400, b38400, b57600, b230400, b460800,
  b500000, b576000, b921600, b1000000, b1152000, b1500000, b2000000, b2500000, b3000000, b4000000,
}

-- The rate in the name of a code.
abbrev pub rate_of : Speed → ℕ
rate_of b4800 = 4800
rate_of b9600 = 9600
rate_of b19200 = 19200
rate_of b115200 = 115200
rate_of b0 = 0
rate_of b50 = 50
rate_of b75 = 75
rate_of b110 = 110
rate_of b134 = 134
rate_of b150 = 150
rate_of b200 = 200
rate_of b300 = 300
rate_of b600 = 600
rate_of b1200 = 1200
rate_of b1800 = 1800
rate_of b2400 = 2400
rate_of b38400 = 38400
rate_of b57600 = 57600
rate_of b230400 = 230400
rate_of b460800 = 460800
rate_of b500000 = 500000
rate_of b576000 = 576000
rate_of b921600 = 921600
rate_of b1000000 = 1000000
rate_of b1152000 = 1152000
rate_of b1500000 = 1500000
rate_of b2000000 = 2000000
rate_of b2500000 = 2500000
rate_of b3000000 = 3000000
rate_of b4000000 = 4000000

-- Every case of a list of cases satisfies `P`.
abbrev AllCases : (ℕ → Speed → Type 0) → List (ℕ × Speed) → Type 0
AllCases P [] = Unit
AllCases P ((k, v) ∷ cases) = P k v × AllCases P cases

lookup-all :
    (P : ℕ → Speed → Type 0) (cases : List (ℕ × Speed)) (k : ℕ) (v : Speed)
    → AllCases P cases
    → lookup k cases ≡ some v
    → P k v
unfolding lookup
lookup-all P [] k v all h = cc
lookup-all P ((j, w) ∷ cases) k v all h = elim (Bool-cases (k == j)) [
  | inl e ↦ let ek : k ≡ j = ==→eq k j e in let ev : w ≡ v = ground arith in rw (ek, ← ev) all.0
  | inr e ↦ lookup-all P cases k v all.1 (ground arith)
]

-- The code has the rate in its name, or is the one for 3500000.
abbrev pub IsRateOf : ℕ → Speed → Type 0
IsRateOf rate v = (rate_of v ≡ rate) ⊎ ((rate ≡ 3500000) × (v ≡ b2500000))

pub rate_of-found : (v : Speed) → get_baud_rate_from_desc (rate_of v) ≡ some v
unfolding get_baud_rate_from_desc
rate_of-found b0 = refl
rate_of-found _ = refl

-- The code that `get_baud_rate_from_desc` gives has the rate asked for in its name, except that
-- 3500000 gets `B2500000`; and the same code is given for the rate in its name.
pub get_baud_rate_from_desc-rate :
    (rate : ℕ) (v : Speed)
    → get_baud_rate_from_desc rate ≡ some v
    → IsRateOf rate v × (get_baud_rate_from_desc (rate_of v) ≡ some v)
unfolding get_baud_rate_from_desc
get_baud_rate_from_desc-rate rate v h =
    (lookup-all IsRateOf baud_rate_cases rate v (ground arith) h, rate_of-found v)
