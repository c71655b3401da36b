-- ===== src/Prelude/Lists.antt =====
-- Lists measured and cut by native numbers, under the library's names.
use Prim.Native.Nat.{ℕ, zero, suc, ◌+◌, ◌-◌, ◌≤◌, min}
use mathlib.Core.Path.{◌≡◌, refl, sym, ap, ◌∙◌}
use mathlib.Core.List.{List, [], ◌∷◌, ◌++◌}
use native.Mathlib.Omega.{arith}
use itrace.Prelude.Tests.{◌==◌, if◌then◌else◌}

module _ {ℓ} {A : Type ℓ} where
  abbrev pub length : List A → ℕ
  length [] = 0
  length (x ∷ xs) = suc (length xs)

  abbrev pub get_or : List A → ℕ → A → A
  get_or [] i d = d
  get_or (x ∷ xs) zero d = x
  get_or (x ∷ xs) (suc i) d = get_or xs i d

  abbrev pub take : ℕ → List A → List A
  take zero xs = []
  take (suc n) [] = []
  take (suc n) (x ∷ xs) = x ∷ take n xs

  abbrev pub drop : ℕ → List A → List A
  drop zero xs = xs
  drop (suc n) [] = []
  drop (suc n) (x ∷ xs) = drop n xs

  abbrev pub replicate : ℕ → A → List A
  replicate zero a = []
  replicate (suc n) a = a ∷ replicate n a

  pub length-append : (xs ys : List A) → length (xs ++ ys) ≡ length xs + length ys
  length-append [] ys = omega arith
  length-append (x ∷ xs) ys = omega (arith, length-append xs ys)

suc-add : (m n : ℕ) → suc (m + n) ≡ suc m + n
suc-add m n = omega arith

module _ {ℓ} {A : Type ℓ} where
  pub take-append-drop : (n : ℕ) (xs : List A) → take n xs ++ drop n xs ≡ xs
  take-append-drop zero xs = refl
  take-append-drop (suc n) [] = refl
  take-append-drop (suc n) (x ∷ xs) = rw (take-append-drop n xs)

  pub length-take : (n : ℕ) (xs : List A) → length (take n xs) ≡ min n (length xs)
  length-take zero xs = omega arith
  length-take (suc n) [] = omega arith
  length-take (suc n) (x ∷ xs) = omega (arith, length-take n xs)

  pub length-drop : (n : ℕ) (xs : List A) → length (drop n xs) ≡ length xs - n
  length-drop zero xs = omega arith
  length-drop (suc n) [] = omega arith
  length-drop (suc n) (x ∷ xs) = omega (arith, length-drop n xs)

  pub take_of_le : (n : ℕ) (xs : List A) → length xs ≤ n → take n xs ≡ xs
  take_of_le zero [] h = refl
  take_of_le zero (x ∷ xs) h = absurd (omega arith)
  take_of_le (suc n) [] h = refl
  take_of_le (suc n) (x ∷ xs) h = ap (λ r. x ∷ r) (take_of_le n xs (omega arith))

  take-length : (n : ℕ) (xs : List A) → take (length (take n xs)) xs ≡ take n xs
  take-length zero xs = refl
  take-length (suc n) [] = refl
  take-length (suc n) (x ∷ xs) = ap (λ r. x ∷ r) (take-length n xs)

  take-nil : (n : ℕ) → take {A = A} n [] ≡ []
  take-nil zero = refl
  take-nil (suc n) = refl

  drop-nil : (n : ℕ) → drop {A = A} n [] ≡ []
  drop-nil zero = refl
  drop-nil (suc n) = refl

  -- Cutting `m` elements, then `n` more, is cutting both at once.
  pub take-add : (m n : ℕ) (xs : List A) → take m xs ++ take n (drop m xs) ≡ take (m + n) xs
  take-add zero n xs = ap (λ k. take k xs) (omega arith)
  take-add (suc m) n [] = take-nil n ∙ sym (take-nil (suc m + n))
  take-add (suc m) n (x ∷ xs) =
      ap (λ r. x ∷ r) (take-add m n xs) ∙ ap (λ k. take k (x ∷ xs)) (suc-add m n)

  pub drop-drop : (m n : ℕ) (xs : List A) → drop n (drop m xs) ≡ drop (m + n) xs
  drop-drop zero n xs = ap (λ k. drop k xs) (omega arith)
  drop-drop (suc m) n [] = drop-nil n ∙ sym (drop-nil (suc m + n))
  drop-drop (suc m) n (x ∷ xs) = drop-drop m n xs ∙ ap (λ k. drop k (x ∷ xs)) (suc-add m n)

  pub take-take_of_le : (k m : ℕ) (xs : List A) → k ≤ m → take k (take m xs) ≡ take k xs
  take-take_of_le zero m xs h = refl
  take-take_of_le (suc k) zero xs h = absurd (omega arith)
  take-take_of_le (suc k) (suc m) [] h = refl
  take-take_of_le (suc k) (suc m) (x ∷ xs) h =
      ap (λ r. x ∷ r) (take-take_of_le k m xs (omega arith))

  pub take-append_left : (xs ys : List A) → take (length xs) (xs ++ ys) ≡ xs
  take-append_left [] ys = refl
  take-append_left (x ∷ xs) ys = ap (λ r. x ∷ r) (take-append_left xs ys)

  pub take-append_of_le : (n : ℕ) (xs ys : List A) → n ≤ length xs → take n (xs ++ ys) ≡ take n xs
  take-append_of_le zero xs ys h = refl
  take-append_of_le (suc n) [] ys h = absurd (omega arith)
  take-append_of_le (suc n) (x ∷ xs) ys h =
      ap (λ r. x ∷ r) (take-append_of_le n xs ys (omega arith))

  pub drop-append_left : (xs ys : List A) → drop (length xs) (xs ++ ys) ≡ ys
  drop-append_left [] ys = refl
  drop-append_left (x ∷ xs) ys = drop-append_left xs ys

-- Resuming a transfer: after a first piece of at most `m` elements, `q` more make up `m`.
pub take-resume {ℓ} :
    {A : Type ℓ} (k m q : ℕ) (xs : List A)
    → q + length (take (min k m) xs) ≡ m
    → (take (min k m) xs ++ take q (drop (length (take (min k m) xs)) xs) ≡ take m xs)
      × (drop q (drop (length (take (min k m) xs)) xs) ≡ drop m xs)
take-resume k m q xs e = (
  ap (λ r. r ++ take q (drop (length (take (min k m) xs)) xs)) (sym (take-length (min k m) xs))
      ∙ take-add (length (take (min k m) xs)) q xs
      ∙ ap (λ j. take j xs) (omega arith),
  drop-drop (length (take (min k m) xs)) q xs ∙ ap (λ j. drop j xs) (omega arith),
)

-- How often a number occurs.
abbrev pub count : ℕ → List ℕ → ℕ
count a [] = 0
count a (x ∷ xs) = if x == a then suc (count a xs) else count a xs

pub count-append : (a : ℕ) (xs ys : List ℕ) → count a (xs ++ ys) ≡ count a xs + count a ys
count-append a [] ys = omega arith
count-append a (x ∷ xs) ys = ground (arith, count-append a xs ys)

-- Every element is at most `b`.
abbrev pub AllLe : ℕ → List ℕ → Type 0
AllLe b [] = Unit
AllLe b (x ∷ xs) = (x ≤ b) × AllLe b xs

pub AllLe-append : (b : ℕ) (xs ys : List ℕ) → AllLe b (xs ++ ys) → AllLe b xs × AllLe b ys
AllLe-append b [] ys h = (tt, h)
AllLe-append b (x ∷ xs) ys h = ground (arith, AllLe-append b xs ys)

pub AllLe-snoc : (b : ℕ) (xs : List ℕ) (y : ℕ) → AllLe b xs → y ≤ b → AllLe b (xs ++ y ∷ [])
AllLe-snoc b [] y h le = (le, tt)
AllLe-snoc b (x ∷ xs) y h le = (h.0, AllLe-snoc b xs y h.1 le)

pub AllLe-append_of : (b : ℕ) (xs ys : List ℕ) → AllLe b xs → AllLe b ys → AllLe b (xs ++ ys)
AllLe-append_of b [] ys h k = k
AllLe-append_of b (x ∷ xs) ys h k = (h.0, AllLe-append_of b xs ys h.1 k)

pub AllLe-mono : (b c : ℕ) (xs : List ℕ) → b ≤ c → AllLe b xs → AllLe c xs
AllLe-mono b c [] le h = tt
AllLe-mono b c (x ∷ xs) le h = (omega (arith, h.0), AllLe-mono b c xs le h.1)
