-- ===== src/Strings/Hex.antt =====
-- private_libary/cstring_extern_lib/cstring_extern_lib.c, `print_as_hex`. What is printed is the
-- list of its characters.
pub mod Laws
mod Tests
use itrace.Prelude.{
  ℕ, zero, suc, ◌+◌, ◌/◌, ◌%◌, ◌==◌, ltb, if◌then◌else◌, Bool, true, false, Option, none, some,
  ◌&&◌, not, List, [], ◌∷◌, ◌++◌, length, ℤ, pos, negsuc,
}

-- A digit of `%X`
abbrev pub hex_digit : ℕ → ℕ
hex_digit d = if ltb d 10 then 0x30 + d else 0x37 + d

-- `%02X` of an `unsigned char`
abbrev hex_byte : ℕ → List ℕ
hex_byte b = hex_digit (b / 16) ∷ hex_digit (b % 16) ∷ []

-- `(i + 1)%num != 0?' ':'\n'`, where `num` is the number given or its opposite: the remainder is 0 for both
-- at once.
abbrev separator : (num i : ℕ) → ℕ
separator num i = if (i + 1) % num == 0 then 0x0a else 0x20

-- The `for` loop from `i` on, over the bytes ahead.
pub hex_loop : (num i : ℕ) → List ℕ → List ℕ
hex_loop num i [] = []
hex_loop num i (b ∷ new_data) = hex_byte b ++ separator num i ∷ hex_loop num (i + 1) new_data

-- The number, or its opposite.
abbrev magnitude : ℤ → ℕ
magnitude (pos n) = n
magnitude (negsuc n) = suc n

-- The data is null, or points to `len` bytes; `num_per_line` is null, or points to a number. `none`: the first
-- byte is followed by a division by zero.
pub print_as_hex : Option (List ℕ) → (num_per_line : Option ℤ) → Option (List ℕ)
print_as_hex none num_per_line = some []
print_as_hex (some new_data) none = some (hex_loop 16 0 new_data)
print_as_hex (some new_data) (some num) =
    if (magnitude num == 0) && not (length new_data == 0)
    then none
    else some (hex_loop (magnitude num) 0 new_data)
