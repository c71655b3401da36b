-- ===== src/Strings/Hex/Laws.antt =====
-- What `print_as_hex` prints can be read back.
use itrace.Prelude.{
  ℕ, ◌+◌, ◌*◌, ◌-◌, ◌/◌, ◌%◌, zero, suc, ◌≡◌, ◌≢◌, ℤ, pos, negsuc, refl, ltb, if◌then◌else◌, ◌<◌,
  ◌≤◌, Option, none, some, List, [], ◌∷◌, length, arith, AllLe,
}
use itrace.Strings.Hex.{hex_digit, hex_loop, print_as_hex}

-- The value of a digit.
abbrev nibble : ℕ → ℕ
nibble c = if ltb c 0x3a then c - 0x30 else c - 0x37

-- The bytes printed: two digits for each, and one character after them.
abbrev read_hex : List ℕ → List ℕ
read_hex [] = []
read_hex (h ∷ []) = []
read_hex (h ∷ l ∷ []) = []
read_hex (h ∷ l ∷ s ∷ rest) = (nibble h * 16 + nibble l) ∷ read_hex rest

nibble-hex_digit : (d : ℕ) → d < 16 → nibble (hex_digit d) ≡ d
nibble-hex_digit d h = ground arith

hex_byte_lem :
    (b : ℕ) → b ≤ 255 → nibble (hex_digit (b / 16)) * 16 + nibble (hex_digit (b % 16)) ≡ b
hex_byte_lem b h =
    omega (arith, nibble-hex_digit (b / 16) (omega arith), nibble-hex_digit (b % 16) (omega arith))

hex_loop-read :
    (num i : ℕ) (bytes : List ℕ)
    → AllLe 255 bytes
    → (read_hex (hex_loop num i bytes) ≡ bytes) × (length (hex_loop num i bytes) ≡ 3 * length bytes)
unfolding hex_loop
hex_loop-read num i [] h = (refl, omega arith)
hex_loop-read num i (b ∷ bytes) h =
    let (back, len) = hex_loop-read num (i + 1) bytes h.1 in
    (ground (arith, hex_byte_lem b h.0, back), omega (arith, len))

-- Whatever the bytes are and however long the lines are, also with a length below 0, `print_as_hex` prints
-- three characters for each byte, and the bytes can be read back from them.
print_as_hex-read :
    (bytes : List ℕ) (num_per_line : Option ℤ)
    → AllLe 255 bytes
    → num_per_line ≢ some (pos 0)
    → (text : List ℕ) × (print_as_hex (some bytes) num_per_line ≡ some text)
      × (read_hex text ≡ bytes)
      × (length text ≡ 3 * length bytes)
unfolding print_as_hex
print_as_hex-read bytes none h d =
    let (back, len) = hex_loop-read 16 0 bytes h in (hex_loop 16 0 bytes, refl, back, len)
print_as_hex-read bytes (some (pos zero)) h d = absurd (d refl)
print_as_hex-read bytes (some (pos (suc n))) h d =
    let (back, len) = hex_loop-read (suc n) 0 bytes h in
    (hex_loop (suc n) 0 bytes, ground arith, back, len)
print_as_hex-read bytes (some (negsuc n)) h d =
    let (back, len) = hex_loop-read (suc n) 0 bytes h in
    (hex_loop (suc n) 0 bytes, ground arith, back, len)
