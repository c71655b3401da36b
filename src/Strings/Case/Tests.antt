-- ===== src/Strings/Case/Tests.antt =====
-- `str2upper` and `str2lower` at fixed strings.
use itrace.Prelude.{◌≡◌, refl, some, none, [], ◌∷◌}
use itrace.Strings.Case.{str2upper, str2lower, upper_loop}

-- "aZ" and a byte behind it
raised : str2upper (0x61 ∷ 0x5a ∷ 0 ∷ 0x62 ∷ []) ≡ some (0x41 ∷ 0x5a ∷ 0 ∷ 0x62 ∷ [])
unfolding str2upper upper_loop
raised = refl

lowered : str2lower (0x61 ∷ 0x5a ∷ 0 ∷ 0x42 ∷ []) ≡ 0x61 ∷ 0x7a ∷ 0 ∷ 0x42 ∷ []
unfolding str2lower
lowered = refl

empty : str2upper (0 ∷ 0x62 ∷ []) ≡ none
unfolding str2upper
empty = refl
