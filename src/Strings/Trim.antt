-- ===== src/Strings/Trim.antt =====
-- private_libary/cstring_extern_lib/cstring_extern_lib.c, `cstring_trim`. A string is the bytes
-- before its terminator.
pub mod Laws
mod Tests
use itrace.Prelude.{
  ℕ, zero, suc, ◌+◌, ◌≡◌, refl, sym, ap, ◌∙◌, ◌==◌, ◌||◌, if◌then◌else◌, Bool, true, false, Option,
  none, some, List, [], ◌∷◌, ◌++◌, length, take, drop, get_or, arith, ◌≤◌, take_of_le,
  take-append-drop,
}

-- The loop on `start_ch`; `none` when it has passed the last character.
pub skip_spaces : List ℕ → Option (List ℕ)
skip_spaces [] = some []
skip_spaces (c ∷ []) = if c == 0x20 then none else some (c ∷ [])
skip_spaces (c ∷ d ∷ s) =
    let rest = skip_spaces (d ∷ s) in if c == 0x20 then rest else some (c ∷ d ∷ s)

-- A space or a line feed.
abbrev pub is_blank : ℕ → Bool
is_blank c = (c == 0x20) || (c == 0x0a)

-- The loop on `last_ch`, which stands at `start_ch + last` when the first argument is `last + 1`. The
-- length of the text up to it; `none` when it has passed `start_ch`.
pub skip_back : ℕ → (start_ch : List ℕ) → Option ℕ
skip_back zero start_ch = none
skip_back (suc last) start_ch =
    let rest = skip_back last start_ch in
    if is_blank (get_or start_ch last 0) then rest else some (suc last)

-- `malloc` is taken to succeed, as the source does.
pub cstring_trim : List ℕ → Option (List ℕ)
cstring_trim src = if length src == 0 then none else elim (skip_spaces src) [
  | none ↦ none
  | some start_ch ↦ elim (skip_back (length start_ch) start_ch) [
    | none ↦ none
    | some n ↦ some (take n start_ch)
  ]
]
