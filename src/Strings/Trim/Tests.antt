-- ===== src/Strings/Trim/Tests.antt =====
-- `cstring_trim` at fixed strings.
use itrace.Prelude.{◌≡◌, refl, some, [], ◌∷◌}
use itrace.Strings.Trim.Laws.{IsTrimmed, cstring_trim-IsTrimmed}
use itrace.Strings.Trim.{cstring_trim, skip_spaces, skip_back}

-- " A B \n"
trimmed :
    cstring_trim (0x20 ∷ 0x41 ∷ 0x20 ∷ 0x42 ∷ 0x20 ∷ 0x0a ∷ []) ≡ some (0x41 ∷ 0x20 ∷ 0x42 ∷ [])
unfolding cstring_trim skip_spaces skip_back
trimmed = refl

cstring_trim-IsTrimmed_example :
    IsTrimmed (0x20 ∷ 0x41 ∷ 0x20 ∷ 0x0a ∷ []) (cstring_trim (0x20 ∷ 0x41 ∷ 0x20 ∷ 0x0a ∷ []))
cstring_trim-IsTrimmed_example = cstring_trim-IsTrimmed (0x20 ∷ 0x41 ∷ 0x20 ∷ 0x0a ∷ [])
