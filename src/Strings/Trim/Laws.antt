-- ===== src/Strings/Trim/Laws.antt =====
-- What `cstring_trim` cuts off, and what it leaves.
use itrace.Prelude.{
  ℕ, zero, suc, ◌+◌, ◌-◌, ◌≡◌, ◌≢◌, refl, sym, ap, ◌∙◌, Bool, true, false, Option, none, some,
  if◌then◌else◌, List, [], ◌∷◌, ◌++◌, length, take, drop, get_or, replicate, arith, ◌≤◌, ◌<◌,
  take_of_le, take-append-drop, length-take, length-drop, Bool-cases, ◌==◌, ==→eq, inl, inr,
}
use itrace.Strings.Trim.{skip_spaces, skip_back, is_blank, cstring_trim}

abbrev AllBlank : List ℕ → Type 0
AllBlank [] = Unit
AllBlank (x ∷ xs) = (is_blank x ≡ true) × AllBlank xs

-- `t` is the text of `src` without the spaces before it and the spaces and line feeds behind it.
pub record IsText (src t : List ℕ) : Type 0 where
  pub spaces : ℕ
  pub behind : List ℕ
  pub split : src ≡ replicate spaces 0x20 ++ (t ++ behind)
  pub blank : AllBlank behind
  pub filled : 0 < length t
  pub first : get_or t 0 0 ≢ 0x20
  pub last : is_blank (get_or t (length t - 1) 0) ≡ false
  pub again : cstring_trim t ≡ some t

-- `src` is spaces, and blanks after them.
pub record IsAllBlank (src : List ℕ) : Type 0 where
  pub spaces : ℕ
  pub behind : List ℕ
  pub split : src ≡ replicate spaces 0x20 ++ behind
  pub blank : AllBlank behind

abbrev pub IsTrimmed : List ℕ → Option (List ℕ) → Type 0
IsTrimmed src none = IsAllBlank src
IsTrimmed src (some t) = IsText src t

get_or-take : (n i : ℕ) (xs : List ℕ) → i < n → get_or (take n xs) i 0 ≡ get_or xs i 0
get_or-take zero i xs h = absurd (omega arith)
get_or-take (suc n) i [] h = refl
get_or-take (suc n) zero (x ∷ xs) h = refl
get_or-take (suc n) (suc i) (x ∷ xs) h = get_or-take n i xs (omega arith)

get_or-drop : (n i : ℕ) (xs : List ℕ) → get_or (drop n xs) i 0 ≡ get_or xs (n + i) 0
get_or-drop zero i xs = ap (λ k. get_or xs k 0) (omega arith)
get_or-drop (suc n) i [] = refl
get_or-drop (suc n) i (x ∷ xs) = get_or-drop n i xs ∙ ap (λ k. get_or (x ∷ xs) k 0) e
  where
    e : suc (n + i) ≡ suc n + i
    e = omega arith

AllBlank-get_or :
    (xs : List ℕ) → ((i : ℕ) → i < length xs → is_blank (get_or xs i 0) ≡ true) → AllBlank xs
AllBlank-get_or [] h = tt
AllBlank-get_or (x ∷ xs) h =
    (h 0 (omega arith), AllBlank-get_or xs (λ i lt. h (suc i) (omega arith)))

-- What the two loops find.
record Skipped (s s' : List ℕ) : Type 0 where
  count : ℕ
  split : s ≡ replicate count 0x20 ++ s'
  first : get_or s' 0 0 ≢ 0x20

abbrev SkipView : List ℕ → Option (List ℕ) → Type 0
SkipView s none = s ≡ replicate (length s) 0x20 ++ []
SkipView s (some s') = Skipped s s'

skip_step :
    (c : ℕ) (s : List ℕ) (r : Option (List ℕ))
    → SkipView s r
    → (b : Bool) → (c == 0x20) ≡ b
    → SkipView (c ∷ s) (if b then r else some (c ∷ s))
skip_step c s none v true e = ground (arith, v)
skip_step c s (some s') v true e = record {
  count = suc v.count;
  split = ground (arith, v.split);
  first = v.first;
}
skip_step c s r v false e = record { count = 0; split = refl; first = λ h. ground arith }

skip_spaces-View : (s : List ℕ) → SkipView s (skip_spaces s)
unfolding skip_spaces
skip_spaces-View [] = record { count = 0; split = refl; first = λ e. omega (arith, e) }
skip_spaces-View (c ∷ []) = skip_step c [] none refl (c == 0x20) refl
skip_spaces-View (c ∷ d ∷ s) =
    skip_step c (d ∷ s) (skip_spaces (d ∷ s)) (skip_spaces-View (d ∷ s)) (c == 0x20) refl

record Back (k : ℕ) (s : List ℕ) (n : ℕ) : Type 0 where
  low : 0 < n
  high : n ≤ k
  last : is_blank (get_or s (n - 1) 0) ≡ false
  blank : (i : ℕ) → n ≤ i → i < k → is_blank (get_or s i 0) ≡ true

abbrev BackView : ℕ → List ℕ → Option ℕ → Type 0
BackView k s none = (i : ℕ) → i < k → is_blank (get_or s i 0) ≡ true
BackView k s (some n) = Back k s n

extend :
    (k : ℕ) (s : List ℕ) (n : ℕ)
    → is_blank (get_or s k 0) ≡ true
    → ((i : ℕ) → n ≤ i → i < k → is_blank (get_or s i 0) ≡ true)
    → (i : ℕ) → n ≤ i
    → i < suc k
    → is_blank (get_or s i 0) ≡ true
extend k s n e h i le lt = elim (Bool-cases (i == k)) [
  | inl q ↦ ap (λ j. is_blank (get_or s j 0)) (==→eq i k q) ∙ e
  | inr q ↦ h i le (ground arith)
]

back_step :
    (k : ℕ) (s : List ℕ) (r : Option ℕ)
    → BackView k s r
    → (b : Bool) → is_blank (get_or s k 0) ≡ b
    → BackView (suc k) s (if b then r else some (suc k))
back_step k s none v true e = λ i h. extend k s 0 e (λ j le. v j) i (omega arith) h
back_step k s (some n) v true e = record {
  low = v.low;
  high = omega (arith, v.high);
  last = v.last;
  blank = extend k s n e v.blank;
}
back_step k s r v false e = record {
  low = omega arith;
  high = omega arith;
  last = ap (λ j. is_blank (get_or s j 0)) (pred k) ∙ e;
  blank = λ i le lt. absurd (omega arith);
}
  where
    pred : (k : ℕ) → suc k - 1 ≡ k
    pred k = omega arith

skip_back-View : (k : ℕ) (s : List ℕ) → BackView k s (skip_back k s)
unfolding skip_back
skip_back-View zero s = λ i h. absurd (omega arith)
skip_back-View (suc k) s =
    back_step k s (skip_back k s) (skip_back-View k s) (is_blank (get_or s k 0)) refl

skip_spaces_of : (x : ℕ) (xs : List ℕ) → x ≢ 0x20 → skip_spaces (x ∷ xs) ≡ some (x ∷ xs)
unfolding skip_spaces
skip_spaces_of x [] h = ground arith
skip_spaces_of x (y ∷ xs) h = ground arith

-- A text with nothing to cut off is left as it is.
trim_fixed :
    (t : List ℕ)
    → 0 < length t
    → get_or t 0 0 ≢ 0x20
    → is_blank (get_or t (length t - 1) 0) ≡ false
    → cstring_trim t ≡ some t
unfolding cstring_trim skip_back
trim_fixed [] h f l = absurd (omega arith)
trim_fixed (x ∷ xs) h f l =
    ground (arith, skip_spaces_of x xs f, take_of_le (length (x ∷ xs)) (x ∷ xs) (omega arith))

trim_back :
    (src s : List ℕ)
    → Skipped src s
    → (m : Option ℕ) → BackView (length s) s m
    → IsTrimmed src (elim m [ none ↦ none | some n ↦ some (take n s) ])
trim_back src s v none b = record {
  spaces = v.count;
  behind = s;
  split = v.split;
  blank = AllBlank-get_or s b;
}
trim_back src s v (some n) b =
    let len : length (take n s) ≡ n = omega (arith, length-take n s, b.high) in
    let head = get_or-take n 0 s b.low ∙ refl in
    let first : get_or (take n s) 0 0 ≢ 0x20 = λ e. v.first (sym head ∙ e) in
    let last : is_blank (get_or (take n s) (length (take n s) - 1) 0) ≡ false =
      ap (λ k. is_blank (get_or (take n s) (k - 1) 0)) len
      ∙ ap is_blank (get_or-take n (n - 1) s (omega (arith, b.low)))
      ∙ b.last in
    let filled : 0 < length (take n s) = omega (arith, len, b.low) in
    record {
      spaces = v.count;
      behind = drop n s;
      split = v.split ∙ ap (λ r. replicate v.count 0x20 ++ r) (sym (take-append-drop n s));
      blank = AllBlank-get_or (drop n s) (λ i h.
          ap is_blank (get_or-drop n i s)
          ∙ b.blank (n + i) (omega arith) (omega (arith, length-drop n s, h)));
      filled = filled;
      first = first;
      last = last;
      again = trim_fixed (take n s) filled first last;
    }

trim_skipped :
    (src : List ℕ) (r : Option (List ℕ))
    → SkipView src r
    → IsTrimmed src (elim r [
      | none ↦ none
      | some s ↦ elim (skip_back (length s) s) [ none ↦ none | some n ↦ some (take n s) ]
    ])
trim_skipped src none v = record { spaces = length src; behind = []; split = v; blank = tt }
trim_skipped src (some s) v =
    trim_back src s v (skip_back (length s) s) (skip_back-View (length s) s)

trim_tested :
    (src : List ℕ) (r : Option (List ℕ)) (b : Bool)
    → b ≡ false
    → IsTrimmed src r
    → IsTrimmed src (if b then none else r)
trim_tested src r true e v = ground arith
trim_tested src r false e v = v

-- `cstring_trim` returns null only for a string of spaces and then spaces and line feeds;
-- otherwise the result is the string without the spaces before it and the spaces and line feeds
-- behind it, is not empty, does not begin with a space or end in a space or line feed, and is
-- itself left as it is. So line feeds behind the string go too, and those before it stay.
pub cstring_trim-IsTrimmed : (src : List ℕ) → IsTrimmed src (cstring_trim src)
unfolding cstring_trim
cstring_trim-IsTrimmed [] = record { spaces = 0; behind = []; split = refl; blank = tt }
cstring_trim-IsTrimmed (c ∷ s) =
    trim_tested (c ∷ s) _ (length (c ∷ s) == 0) (ground arith)
      (trim_skipped (c ∷ s) (skip_spaces (c ∷ s)) (skip_spaces-View (c ∷ s)))
