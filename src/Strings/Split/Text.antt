-- ===== src/Strings/Split/Text.antt =====
-- What the rows of `c_splite` hold as strings: the string without its delimiters.
use itrace.Prelude.{
  ℕ, zero, suc, ◌-◌, ◌≡◌, refl, ap, ◌∙◌, if◌then◌else◌, ◌<◌, ◌≤◌, List, [], ◌∷◌, ◌++◌, length, map,
  arith, ◌==◌, replicate, Bool-cases, inl, inr, take_of_le,
}
use itrace.Strings.Case.Laws.{IsString}
use itrace.Strings.Split.{is_delim, scan, strtok, row_size, c_splite}
use itrace.Strings.Split.Laws.{padded, filled, c_splite-rows}

-- A row read as a string: the bytes before its first zero.
abbrev pub text : List ℕ → List ℕ
text [] = []
text (c ∷ row) = if c == 0 then [] else c ∷ text row

abbrev pub concat : List (List ℕ) → List ℕ
concat [] = []
concat (xs ∷ xss) = xs ++ concat xss

-- The bytes of `str` that are not delimiters.
abbrev pub keep : (delims str : List ℕ) → List ℕ
keep delims [] = []
keep delims (c ∷ str) = if is_delim c delims then keep delims str else c ∷ keep delims str

-- Each element fits in a row, with a zero behind it.
abbrev pub AllShort : List (List ℕ) → Type 0
AllShort [] = Unit
AllShort (e ∷ elements) = (length e < row_size) × AllShort elements

abbrev AllStrings : List (List ℕ) → Type 0
AllStrings [] = Unit
AllStrings (e ∷ elements) = IsString e × AllStrings elements

text-zeros : (n : ℕ) → text (replicate n 0) ≡ []
text-zeros zero = refl
text-zeros (suc n) = refl

text-append : (n : ℕ) (e : List ℕ) → IsString e → text (e ++ replicate n 0) ≡ e
text-append n [] h = text-zeros n
text-append n (c ∷ e) h = ground (arith, text-append n e h.1)

text-padded : (e : List ℕ) → IsString e → length e < row_size → text (padded e) ≡ e
text-padded e h lt =
    ap (λ t. text (t ++ replicate (row_size - length e) 0)) (take_of_le row_size e (omega arith))
    ∙ text-append (row_size - length e) e h

text-filled :
    (n : ℕ) (elements : List (List ℕ))
    → AllStrings elements
    → AllShort elements
    → length elements ≤ n
    → concat (map text (filled n elements)) ≡ concat elements
text-filled zero [] h k le = refl
text-filled zero (e ∷ elements) h k le = absurd (omega arith)
text-filled (suc n) [] h k le =
    ap (λ t. t ++ concat (map text (filled n []))) (text-zeros row_size)
    ∙ text-filled n [] tt tt (omega arith)
text-filled (suc n) (e ∷ elements) h k le =
    let head = text-padded e h.0 k.0 in
    let tail = text-filled n elements h.1 k.1 (omega arith) in
    ap (λ t. t ++ concat (map text (filled n elements))) head ∙ ap (λ t. e ++ t) tail

-- The run and the elements that `scan` finds.
record Scanned (delims str run : List ℕ) (elements : List (List ℕ)) : Type 0 where
  kept : run ++ concat elements ≡ keep delims str
  run_string : IsString run
  strings : AllStrings elements

record Found (delims str : List ℕ) (elements : List (List ℕ)) : Type 0 where
  kept : concat elements ≡ keep delims str
  strings : AllStrings elements

found :
    (delims str run : List ℕ) (elements : List (List ℕ))
    → Scanned delims str run elements
    → Found delims str (if length run == 0 then elements else run ∷ elements)
found delims str [] elements v = record { kept = v.kept; strings = v.strings }
found delims str (c ∷ run) elements v = record {
  kept = ground (arith, v.kept);
  strings = ground (arith, v.run_string, v.strings);
}

scan-Scanned :
    (delims str : List ℕ)
    → IsString str
    → Scanned delims str (scan delims str).0 (scan delims str).1
unfolding scan
scan-Scanned delims [] h = record { kept = refl; run_string = tt; strings = tt }
scan-Scanned delims (c ∷ str) h = elim (Bool-cases (is_delim c delims)) [
  | inl d ↦
      let v =
        found delims str (scan delims str).0 (scan delims str).1 (scan-Scanned delims str h.1) in
      record {
        kept = ground (arith, v.kept, d);
        run_string = ground (arith, d);
        strings = ground (arith, d, v.strings);
      }
  | inr d ↦
      let v = scan-Scanned delims str h.1 in
      record {
        kept = ground (arith, v.kept, d);
        run_string = ground (arith, d, v.run_string, h.0);
        strings = ground (arith, d, v.strings);
      }
]

strtok-Found : (delims str : List ℕ) → IsString str → Found delims str (strtok delims str)
unfolding strtok
strtok-Found delims str h = found delims str _ _ (scan-Scanned delims str h)

-- For a string that is not empty, with no more elements than rows and each of fewer than 32 bytes,
-- the rows that `c_splite` leaves, read as strings one after another, are the string without its
-- delimiters.
pub c_splite-text :
    (c : ℕ) (str delims : List ℕ) (result : List (List ℕ))
    → IsString (c ∷ str)
    → length (strtok delims (c ∷ str)) ≤ length result
    → AllShort (strtok delims (c ∷ str))
    → concat (map text (c_splite (c ∷ str) delims result).1.rows) ≡ keep delims (c ∷ str)
c_splite-text c str delims result h le short =
    let v = strtok-Found delims (c ∷ str) h in
    ap (λ rs. concat (map text rs)) (c_splite-rows c str delims result).1
    ∙ text-filled (length result) (strtok delims (c ∷ str)) v.strings short le
    ∙ v.kept
