-- ===== src/Log/Reading.antt =====
-- What `printc` (private_libary/log_type/log_type.h) prints tells its level and its text.
use itrace.Prelude.{
  ℕ, zero, suc, ◌+◌, ◌-◌, ◌==◌, ◌≡◌, ◌<◌, refl, ap, ◌∙◌, List, [], ◌∷◌, ◌++◌, Option, none, some,
  if◌then◌else◌, Bool, true, false, ◌||◌, ltb, take, length, length-append, take-append_left, arith,
  sym,
}
use itrace.Log.{
  level, choice, is_level, printc, info_head, warn_head, error_head, fatal_head, trace_head,
  none_head, color_none, msg_fatal, msg_error, msg_warn, msg_info, msg_debug, msg_trace, msg_none,
}

-- The rest of a text behind a prefix.
abbrev strip : (prefix s : List ℕ) → Option (List ℕ)
strip [] s = some s
strip (p ∷ prefix) [] = none
strip (p ∷ prefix) (c ∷ s) = let rest = strip prefix s in if p == c then rest else none

-- A text without the bytes of `COLOR_NONE` at its end.
abbrev pub body : List ℕ → List ℕ
body s = take (length s - length color_none) s

-- The level whose head a text has, tried in turn, and the text between the head and `COLOR_NONE`.
abbrev read_head : List (List ℕ × ℕ) → List ℕ → Option (ℕ × List ℕ)
read_head [] s = none
read_head ((head, l) ∷ heads) s =
    let rest = read_head heads s in elim (strip head s) [ some t ↦ some (l, body t) | none ↦ rest ]

abbrev heads : List (List ℕ × ℕ)
heads =
    (fatal_head, msg_fatal)
    ∷ (error_head, msg_error)
    ∷ (warn_head, msg_warn)
    ∷ (info_head, msg_info)
    ∷ (trace_head, msg_trace)
    ∷ (none_head, msg_none)
    ∷ []

abbrev pub read_line : List ℕ → Option (ℕ × List ℕ)
read_line s = read_head heads s

body-append : (text : List ℕ) → body (text ++ color_none) ≡ text
body-append text =
    ap (λ n. take n (text ++ color_none))
      (length_text (length text) _ (length-append text color_none))
    ∙ take-append_left text color_none
  where
    length_text : (n m : ℕ) → m ≡ n + 4 → m - 4 ≡ n
    length_text n m e = omega arith

-- `MSG_DEBUG` and the numbers that are no level
abbrev is_silent : ℕ → Bool
is_silent l = (l == msg_debug) || ltb msg_none l

-- What can be read of a line.
abbrev shown : (l : ℕ) → (text : List ℕ) → Option (ℕ × List ℕ)
shown l text = if is_silent l then none else some (l, text)

abbrev pub is_empty : List ℕ → Bool
is_empty [] = true
is_empty (c ∷ s) = false

printc-unknown : (l : ℕ) (text : List ℕ) → msg_none < l → printc (level l) text ≡ []
unfolding printc is_level
printc-unknown l text h = ground arith

shown-unknown : (l : ℕ) (text : List ℕ) → msg_none < l → shown l text ≡ none
shown-unknown l text h = ground arith

printc_level-read_line : (l : ℕ) (text : List ℕ) → read_line (printc (level l) text) ≡ shown l text
unfolding printc is_level
printc_level-read_line zero text = ap (λ t. some (0, t)) (body-append text)
printc_level-read_line (suc zero) text = ap (λ t. some (1, t)) (body-append text)
printc_level-read_line (suc (suc zero)) text = ap (λ t. some (2, t)) (body-append text)
printc_level-read_line (suc (suc (suc zero))) text = ap (λ t. some (3, t)) (body-append text)
printc_level-read_line (suc (suc (suc (suc zero)))) text = refl
printc_level-read_line (suc (suc (suc (suc (suc zero))))) text =
    ap (λ t. some (5, t)) (body-append text)
printc_level-read_line (suc (suc (suc (suc (suc (suc zero)))))) text =
    ap (λ t. some (6, t)) (body-append text)
printc_level-read_line (suc (suc (suc (suc (suc (suc (suc l))))))) text =
    let n = suc (suc (suc (suc (suc (suc (suc l)))))) in
    ap read_line (printc-unknown n text (omega arith)) ∙ sym (shown-unknown n text (omega arith))

printc-choice :
    (test : Bool) (text : List ℕ)
    → printc (choice test msg_info msg_error) text
      ≡ printc (level (if test then msg_info else msg_error)) text
unfolding printc is_level
printc-choice true text = refl
printc-choice false text = refl

unknown-is_silent : (l : ℕ) → msg_none < l → is_silent l ≡ true
unknown-is_silent l h = ground arith

printc-is_silent : (l : ℕ) (text : List ℕ) → is_empty (printc (level l) text) ≡ is_silent l
unfolding printc is_level
printc-is_silent zero text = refl
printc-is_silent (suc zero) text = refl
printc-is_silent (suc (suc zero)) text = refl
printc-is_silent (suc (suc (suc zero))) text = refl
printc-is_silent (suc (suc (suc (suc zero)))) text = refl
printc-is_silent (suc (suc (suc (suc (suc zero))))) text = refl
printc-is_silent (suc (suc (suc (suc (suc (suc zero)))))) text = refl
printc-is_silent (suc (suc (suc (suc (suc (suc (suc l))))))) text =
    let n = suc (suc (suc (suc (suc (suc (suc l)))))) in
    ap is_empty (printc-unknown n text (omega arith)) ∙ sym (unknown-is_silent n (omega arith))

-- From what `printc` prints, its level and its text can be read back, whatever the text holds; it prints
-- nothing exactly for the level `MSG_DEBUG` and for numbers that are no level. A choice between `MSG_INFO` and `MSG_ERROR`,
-- which the program writes without parentheses that the macro lacks too, prints in the level chosen.
pub printc-read_line :
    (l : ℕ) (test : Bool) (text : List ℕ)
    → (read_line (printc (level l) text) ≡ shown l text)
      × (is_empty (printc (level l) text) ≡ is_silent l)
      × (read_line (printc (choice test msg_info msg_error) text)
          ≡ some (if test then msg_info else msg_error, text))
printc-read_line l true text = (
  printc_level-read_line l text,
  printc-is_silent l text,
  ap read_line (printc-choice true text) ∙ printc_level-read_line msg_info text,
)
printc-read_line l false text = (
  printc_level-read_line l text,
  printc-is_silent l text,
  ap read_line (printc-choice false text) ∙ printc_level-read_line msg_error text,
)
