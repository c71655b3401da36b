-- ===== src/Strings/Demo.antt =====
-- private_libary/cstring_extern_lib/main.c: a string in both cases, and its elements. What is printed is the list
-- of its characters.
use itrace.Prelude.{
  ℕ, zero, suc, ◌≡◌, refl, List, [], ◌∷◌, ◌++◌, Option, none, some, get_or, replicate,
}
use itrace.Log.{codes}
use itrace.Time.{print_digits}
use itrace.Strings.Case.{upper_loop, str2upper, str2lower}
use itrace.Strings.Split.{c_splite, strtok, scan, store_elements, copy_element, row_size}
use itrace.Strings.Split.Text.{text}

-- `test_trim`, with its terminator.
abbrev test_trim : List ℕ
test_trim = codes "z s  aaSS vv x d " ++ 0 ∷ []

-- "Raw: *%s*==>*%s*\n": both arguments point to the string that the call has changed.
abbrev raw : (string : List ℕ) → List ℕ
raw string = codes "Raw: *" ++ (string ++ (codes "*==>*" ++ (string ++ codes "*\n")))

-- "%d=>%s\n" for each of the rows from `i` on.
abbrev rows : (left i : ℕ) → List (List ℕ) → List ℕ
rows zero i result = []
rows (suc left) i result =
    print_digits 10 i
    ++ (codes "=>" ++ (text (get_or result i []) ++ 0x0a ∷ rows left (suc i) result))

-- `str2upper` returns its argument, unless the string is empty.
abbrev or_same : (before : List ℕ) → Option (List ℕ) → List ℕ
or_same before none = before
or_same before (some after) = after

-- What `main` prints for the string `src`; `result` begins as `start`.
main : (src : List ℕ) → (start : List (List ℕ)) → List ℕ
main src start =
    let lower = str2lower src in
    let upper = or_same lower (str2upper lower) in
    let (num, stored) = c_splite (text upper) (0x20 ∷ []) start in
    codes "Unit Test\n"
    ++ (raw (text lower)
        ++ (raw (text upper)
            ++ (codes "-->num: " ++ (print_digits 10 num ++ 0x0a ∷ rows num 0 stored.rows))))

printed :
    main test_trim (replicate 100 (replicate row_size 7))
    ≡ codes
        "Unit Test\nRaw: *z s  aass vv x d *==>*z s  aass vv x d *\nRaw: *Z S  AASS VV X D *==>*Z S  AASS VV X D *\n-->num: 6\n0=>Z\n1=>S\n2=>AASS\n3=>VV\n4=>X\n5=>D\n"
unfolding main str2lower str2upper upper_loop c_splite strtok scan store_elements copy_element
    print_digits
printed = refl
