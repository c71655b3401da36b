-- ===== src/Strings/Split/Tests.antt =====
-- `c_splite` at fixed strings.
use itrace.Prelude.{ℕ, ◌≡◌, refl, [], ◌∷◌, List, map, false, arith}
use itrace.Strings.Split.{cut, starts, c_splite, strtok, scan, store_elements}
use itrace.Strings.Split.Text.{text, concat, keep}
use itrace.Strings.Split.Cut.{IsCut, texts_at, c_splite-text-cut}

-- " ab  c" at spaces
abbrev str : List ℕ
str = 0x20 ∷ 0x61 ∷ 0x62 ∷ 0x20 ∷ 0x20 ∷ 0x63 ∷ []

elements : strtok (0x20 ∷ []) str ≡ (0x61 ∷ 0x62 ∷ []) ∷ (0x63 ∷ []) ∷ []
unfolding strtok scan
elements = refl

-- The array has one row; the second element is written past it.
overrun : (c_splite str (0x20 ∷ []) ([] ∷ [])).1.past ≡ 1
unfolding c_splite strtok scan store_elements
overrun = refl

c_splite-text-cut_example :
    (concat (map text (c_splite str (0x20 ∷ []) ([] ∷ [] ∷ [])).1.rows) ≡ keep (0x20 ∷ []) str)
    × IsCut (0x20 ∷ []) str (cut false (0x20 ∷ []) str)
    × (texts_at (cut false (0x20 ∷ []) str) (starts false 0 (0x20 ∷ []) str)
        ≡ strtok (0x20 ∷ []) str)
unfolding strtok scan
c_splite-text-cut_example =
    c_splite-text-cut 0x20 (0x61 ∷ 0x62 ∷ 0x20 ∷ 0x20 ∷ 0x63 ∷ []) (0x20 ∷ []) ([] ∷ [] ∷ [])
      (ground arith) (ground arith) (ground arith)
