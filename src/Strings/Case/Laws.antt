-- ===== src/Strings/Case/Laws.antt =====
-- What `str2upper` and `str2lower` make of an array that holds a string.
use itrace.Prelude.{
  ℕ, zero, suc, ◌≡◌, refl, sym, ap, ◌∙◌, some, List, [], ◌∷◌, ◌++◌, length, get_or, map, arith, ◌<◌,
  ◌≤◌, take, drop, length-append, take-append_left, drop-append_left,
}
use itrace.Strings.Case.{toupper, tolower, strlen, put, upper_loop, str2upper, str2lower}

-- `s` has no zero in it.
abbrev pub IsString : List ℕ → Type 0
IsString [] = Unit
IsString (c ∷ s) = (0 < c) × IsString s

strlen-append : (s rest : List ℕ) → IsString s → strlen (s ++ 0 ∷ rest) ≡ length s
strlen-append [] rest h = refl
strlen-append (c ∷ s) rest h = ground (arith, strlen-append s rest h.1)

put_one :
    (f : ℕ → ℕ) (i : ℕ) (s : List ℕ)
    → i < length s
    → map f (take i (put i (f (get_or s i 0)) s)) ++ drop i (put i (f (get_or s i 0)) s)
      ≡ map f (take (suc i) s) ++ drop (suc i) s
put_one f i [] h = absurd (omega arith)
put_one f zero (c ∷ s) h = refl
put_one f (suc i) (c ∷ s) h = ap (λ r. f c ∷ r) (put_one f i s (omega arith))

length-put : (i v : ℕ) (s : List ℕ) → length (put i v s) ≡ length s
length-put i v [] = refl
length-put zero v (c ∷ s) = refl
length-put (suc i) v (c ∷ s) = ap suc (length-put i v s)

upper_loop-map :
    (i : ℕ) (s : List ℕ) → i ≤ length s → upper_loop i s ≡ map toupper (take i s) ++ drop i s
unfolding upper_loop
upper_loop-map zero s h = refl
upper_loop-map (suc i) s h =
    upper_loop-map i (put i (toupper (get_or s i 0)) s)
      (omega (arith, length-put i (toupper (get_or s i 0)) s))
    ∙ put_one toupper i s (omega arith)

str2lower-map :
    (s rest : List ℕ) → IsString s → str2lower (s ++ 0 ∷ rest) ≡ map tolower s ++ 0 ∷ rest
unfolding str2lower
str2lower-map [] rest h = refl
str2lower-map (c ∷ s) rest h = ground (arith, str2lower-map s rest h.1)

IsString-toupper : (s : List ℕ) → IsString s → IsString (map toupper s)
IsString-toupper [] h = tt
IsString-toupper (c ∷ s) h = (ground arith, IsString-toupper s h.1)

tolower-toupper : (s : List ℕ) → map tolower (map toupper s) ≡ map tolower s
tolower-toupper [] = refl
tolower-toupper (c ∷ s) = ground (arith, tolower-toupper s)

str2upper-map :
    (c : ℕ) (s rest : List ℕ)
    → IsString (c ∷ s)
    → str2upper ((c ∷ s) ++ 0 ∷ rest) ≡ some (map toupper (c ∷ s) ++ 0 ∷ rest)
unfolding str2upper
str2upper-map c s rest h =
    let n = strlen-append (c ∷ s) rest h in
    let m =
      upper_loop-map (length (c ∷ s)) ((c ∷ s) ++ 0 ∷ rest)
        (omega (arith, length-append (c ∷ s) (0 ∷ rest))) in
    ground (arith, n, m, take-append_left (c ∷ s) (0 ∷ rest), drop-append_left (c ∷ s) (0 ∷ rest))

-- For an array that holds a string of at least one character before its terminator, `str2upper` and
-- `str2lower` change the case of exactly the string's characters, and leave the terminator and what
-- follows it; lowering what `str2upper` returns gives what lowering the array gives.
str2lower-str2upper :
    (c : ℕ) (s rest : List ℕ)
    → IsString (c ∷ s)
    → (r : List ℕ) × (str2upper ((c ∷ s) ++ 0 ∷ rest) ≡ some r)
      × (r ≡ map toupper (c ∷ s) ++ 0 ∷ rest)
      × (str2lower ((c ∷ s) ++ 0 ∷ rest) ≡ map tolower (c ∷ s) ++ 0 ∷ rest)
      × (str2lower r ≡ str2lower ((c ∷ s) ++ 0 ∷ rest))
str2lower-str2upper c s rest h =
    let low = str2lower-map (c ∷ s) rest h in
    (
      map toupper (c ∷ s) ++ 0 ∷ rest,
      str2upper-map c s rest h,
      refl,
      low,
      str2lower-map (map toupper (c ∷ s)) rest (IsString-toupper (c ∷ s) h)
          ∙ ap (λ r. r ++ 0 ∷ rest) (tolower-toupper (c ∷ s))
          ∙ sym low,
    )
