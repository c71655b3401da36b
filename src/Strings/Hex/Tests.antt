-- ===== src/Strings/Hex/Tests.antt =====
-- `print_as_hex` of fixed bytes.
use itrace.Prelude.{◌≡◌, refl, none, some, [], ◌∷◌, pos, negsuc}
use itrace.Strings.Hex.{print_as_hex, hex_loop}

-- "0F A0" and a line feed, in lines of -2
printed :
    print_as_hex (some (0x0f ∷ 0xa0 ∷ [])) (some (negsuc 1))
    ≡ some (0x30 ∷ 0x46 ∷ 0x20 ∷ 0x41 ∷ 0x30 ∷ 0x0a ∷ [])
unfolding print_as_hex hex_loop
printed = refl

no_lines : print_as_hex (some (0x0f ∷ [])) (some (pos 0)) ≡ none
unfolding print_as_hex
no_lines = refl
