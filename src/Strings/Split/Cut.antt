-- ===== src/Strings/Split/Cut.antt =====
-- What `strtok` does to the string that `c_splite` is given.
use itrace.Prelude.{
  ℕ, suc, ◌+◌, ◌≡◌, ◌⊎◌, refl, sym, ap, ◌∙◌, Bool, true, false, List, [], ◌∷◌, ◌++◌, map, length,
  drop, arith, Bool-cases, inl, inr, ◌≤◌, append_assoc, length-append, drop-append_left,
}
use itrace.Strings.Case.Laws.{IsString}
use itrace.Strings.Split.{is_delim, scan, strtok, cut, starts, c_splite}
use itrace.Strings.Split.Text.{text, concat, keep, AllShort, c_splite-text}

-- The elements that begin in what is ahead.
abbrev beginning : (within : Bool) → (delims str : List ℕ) → List (List ℕ)
beginning true delims str = (scan delims str).1
beginning false delims str = strtok delims str

-- The element that has begun, up to its end.
text-cut : (delims str : List ℕ) → IsString str → text (cut true delims str) ≡ (scan delims str).0
unfolding cut scan
text-cut delims [] h = refl
text-cut delims (c ∷ str) h = elim (Bool-cases (is_delim c delims)) [
  | inl d ↦ ground arith
  | inr d ↦ ground (arith, text-cut delims str h.1)
]

-- The strings that begin at the positions `at`.
abbrev pub texts_at : (memory at : List ℕ) → List (List ℕ)
texts_at memory at = map (λ p. text (drop p memory)) at

-- One more byte has passed.
texts_at-next :
    (within : Bool) (before delims str rest : List ℕ) (x : ℕ)
    → texts_at (before ++ x ∷ rest) (starts within (suc (length before)) delims str)
      ≡ texts_at ((before ++ x ∷ []) ++ rest) (starts within (length (before ++ x ∷ [])) delims str)
texts_at-next within before delims str rest x =
    ap (λ m. texts_at m (starts within (suc (length before)) delims str))
      (sym (append_assoc before (x ∷ []) rest))
    ∙ ap (λ n. texts_at ((before ++ x ∷ []) ++ rest) (starts within n delims str))
        (one_more (length before) _ (length-append before (x ∷ [])))
  where
    one_more : (n m : ℕ) → m ≡ n + 1 → suc n ≡ m
    one_more n m e = omega arith

strtok-delim :
    (delims str : List ℕ) (c : ℕ)
    → is_delim c delims ≡ true
    → ((scan delims (c ∷ str)).1 ≡ strtok delims str)
      × (strtok delims (c ∷ str) ≡ strtok delims str)
unfolding scan strtok
strtok-delim delims str c d = (ground arith, ground arith)

strtok-element :
    (delims str : List ℕ) (c : ℕ)
    → is_delim c delims ≡ false
    → ((scan delims (c ∷ str)).1 ≡ (scan delims str).1)
      × (strtok delims (c ∷ str) ≡ (c ∷ (scan delims str).0) ∷ (scan delims str).1)
unfolding scan strtok
strtok-element delims str c d = (ground arith, ground arith)

first_text :
    (before delims str : List ℕ) (c : ℕ)
    → IsString (c ∷ str)
    → text (drop (length before) (before ++ c ∷ cut true delims str)) ≡ c ∷ (scan delims str).0
first_text before delims str c h =
    ap text (drop-append_left before (c ∷ cut true delims str))
    ∙ ground (arith, h.0, text-cut delims str h.1)

texts_at-beginning :
    (within : Bool) (before delims str : List ℕ)
    → IsString str
    → texts_at (before ++ cut within delims str) (starts within (length before) delims str)
      ≡ beginning within delims str
unfolding cut starts
texts_at-beginning true before delims [] h = unfold scan in refl
texts_at-beginning false before delims [] h = unfold scan strtok in refl
texts_at-beginning true before delims (c ∷ str) h =
    let after =
      texts_at-next false before delims str (cut false delims str) 0
      ∙ texts_at-beginning false (before ++ 0 ∷ []) delims str h.1 in
    let on =
      texts_at-next true before delims str (cut true delims str) c
      ∙ texts_at-beginning true (before ++ c ∷ []) delims str h.1 in
    elim (Bool-cases (is_delim c delims)) [
      | inl d ↦ ground (arith, after, strtok-delim delims str c d)
      | inr d ↦ ground (arith, on, strtok-element delims str c d)
    ]
texts_at-beginning false before delims (c ∷ str) h =
    let after =
      texts_at-next false before delims str (cut false delims str) c
      ∙ texts_at-beginning false (before ++ c ∷ []) delims str h.1 in
    let on =
      texts_at-next true before delims str (cut true delims str) c
      ∙ texts_at-beginning true (before ++ c ∷ []) delims str h.1 in
    elim (Bool-cases (is_delim c delims)) [
      | inl d ↦ ground (arith, after, strtok-delim delims str c d)
      | inr d ↦ ground (arith, first_text before delims str c h, on, strtok-element delims str c d)
    ]

-- What is left of the string: a byte at each place, either as it was or, for a delimiter, a zero.
abbrev pub IsCut : (delims before after : List ℕ) → Type 0
IsCut delims [] [] = Unit
IsCut delims [] (a ∷ after) = ⊥
IsCut delims (b ∷ before) [] = ⊥
IsCut delims (b ∷ before) (a ∷ after) =
    ((a ≡ b) ⊎ ((a ≡ 0) × (is_delim b delims ≡ true))) × IsCut delims before after

cut-IsCut : (within : Bool) (delims str : List ℕ) → IsCut delims str (cut within delims str)
unfolding cut
cut-IsCut within delims [] = tt
cut-IsCut true delims (c ∷ str) =
    ground (arith, cut-IsCut false delims str, cut-IsCut true delims str)
cut-IsCut false delims (c ∷ str) =
    ground (arith, cut-IsCut false delims str, cut-IsCut true delims str)

-- The string that `c_splite` is given is changed in its delimiters alone, which become zeros, and the
-- strings that then begin where `strtok` has found elements are the elements.
c_splite-cut :
    (str delims : List ℕ)
    → IsString str
    → let memory = cut false delims str in
      IsCut delims str memory × (texts_at memory (starts false 0 delims str) ≡ strtok delims str)
c_splite-cut str delims h = (cut-IsCut false delims str, texts_at-beginning false [] delims str h)

-- For a string that is not empty, with no more elements than rows and each of fewer than 32 bytes, the rows
-- that `c_splite` leaves, read as strings one after another, are the string without its delimiters. The
-- string itself is changed in its delimiters alone, of which some become zeros, and the strings that
-- then begin where `strtok` has found elements are the elements.
pub c_splite-text-cut :
    (c : ℕ) (str delims : List ℕ) (result : List (List ℕ))
    → IsString (c ∷ str)
    → length (strtok delims (c ∷ str)) ≤ length result
    → AllShort (strtok delims (c ∷ str))
    → let memory = cut false delims (c ∷ str) in
      (concat (map text (c_splite (c ∷ str) delims result).1.rows) ≡ keep delims (c ∷ str))
      × IsCut delims (c ∷ str) memory
      × (texts_at memory (starts false 0 delims (c ∷ str)) ≡ strtok delims (c ∷ str))
c_splite-text-cut c str delims result h le short =
    let (cut_only, elements) = c_splite-cut (c ∷ str) delims h in
    (c_splite-text c str delims result h le short, cut_only, elements)
