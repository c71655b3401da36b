-- ===== src/Selftest/Counting.antt =====
-- What `check_data_inc` counts, and what the test loops miss.
use itrace.Prelude.{
  ℕ, zero, suc, ◌+◌, ◌≡◌, ◌↔◌, refl, List, [], ◌∷◌, false, ◌==◌, if◌then◌else◌, length, arith,
  AllLe,
}
use itrace.Selftest.{
  next_char, prev_char, check_loop, check_data_inc, last_or, read_test_loop, read_test,
}

-- How many bytes are not one more than the byte before them, modulo 256; `c` stands before the first.
abbrev pub breaks : ℕ → List ℕ → ℕ
breaks c [] = 0
breaks c (x ∷ xs) = (if next_char c == x then 0 else 1) + breaks x xs

-- The breaks inside a piece, with nothing before it.
abbrev pub inner_breaks : List ℕ → ℕ
inner_breaks [] = 0
inner_breaks (x ∷ xs) = breaks x xs

-- `n` bytes that count upwards, after `c`.
abbrev counting : ℕ → ℕ → List ℕ
counting c zero = []
counting c (suc n) = next_char c ∷ counting (next_char c) n

check_loop-breaks : (c err : ℕ) (xs : List ℕ) → check_loop c err xs ≡ err + breaks c xs
unfolding check_loop
check_loop-breaks c err [] = omega arith
check_loop-breaks c err (x ∷ xs) =
    ground (arith, check_loop-breaks x err xs, check_loop-breaks x (err + 1) xs)

breaks-zero : (c : ℕ) (xs : List ℕ) → (breaks c xs ≡ 0) ↔ (xs ≡ counting c (length xs))
breaks-zero c [] = (λ h. refl, λ h. refl)
breaks-zero c (x ∷ xs) =
    (λ h. ground (arith, (breaks-zero x xs).0), λ h. ground (arith, (breaks-zero x xs).1))

-- With the flag at 0, `check_data_inc` counts exactly the breaks of the bytes after `start_val`;
-- it counts none exactly when the bytes count upwards from `start_val + 1`.
check_data_inc-start :
    (junk start_val : ℕ) (xs : List ℕ)
    → (check_data_inc junk start_val 0 xs ≡ breaks start_val xs)
      × ((check_data_inc junk start_val 0 xs ≡ 0) ↔ (xs ≡ counting start_val (length xs)))
unfolding check_data_inc
check_data_inc-start junk c xs =
    let e = check_loop-breaks c 0 xs in
    (
      ground (arith, e),
      (λ h. (breaks-zero c xs).0 (omega (arith, e)), λ h. omega (arith, e, (breaks-zero c xs).1 h)),
    )

-- With the flag at 1, `check_data_inc` of bytes below 256 counts the breaks inside the piece
-- alone, whatever `start_val` is.
check_data_inc-inner :
    (junk start_val : ℕ) (xs : List ℕ)
    → AllLe 255 xs
    → check_data_inc junk start_val 1 xs ≡ inner_breaks xs
unfolding check_data_inc
check_data_inc-inner junk c [] h = refl
check_data_inc-inner junk c (x ∷ xs) h = ground (arith, check_loop-breaks (prev_char x) 0 (x ∷ xs))

abbrev pub AllBytes : List (List ℕ) → Type 0
AllBytes [] = Unit
AllBytes (xs ∷ reads) = AllLe 255 xs × AllBytes reads

abbrev pub sum_inner : List (List ℕ) → ℕ
sum_inner [] = 0
sum_inner (xs ∷ reads) = inner_breaks xs + sum_inner reads

later-sum :
    (junk e c : ℕ) (reads : List (List ℕ))
    → AllBytes reads
    → (read_test_loop junk
        (record { err_cnt_sum = e; is_first_read = false; start_val = c })
        reads).err_cnt_sum
      ≡ e + sum_inner reads
unfolding read_test_loop
later-sum junk e c [] h = omega arith
later-sum junk e c (xs ∷ reads) h = ground (
  arith,
  check_data_inc-inner junk c xs h.0,
  later-sum junk (e + inner_breaks xs) (last_or xs junk) reads h.1,
)

-- What the test loops count: the breaks of the first piece read, after a byte 0, and the breaks
-- inside each later piece. A break between two pieces is not counted.
pub read_test-sum :
    (junk : ℕ) (xs : List ℕ) (reads : List (List ℕ))
    → AllBytes reads
    → read_test junk (xs ∷ reads) ≡ breaks 0 xs + sum_inner reads
unfolding read_test_loop
read_test-sum junk xs reads h =
    ground (
      arith,
      check_data_inc-start junk 0 xs,
      later-sum junk (breaks 0 xs) (last_or xs junk) reads h,
    )
