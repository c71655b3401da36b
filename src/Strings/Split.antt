-- ===== src/Strings/Split.antt =====
-- private_libary/cstring_extern_lib/cstring_extern_lib.c, `c_splite`. A string is the bytes before
-- its terminator. `strtok` cuts off the runs of bytes that are not delimiters, one after another.
pub mod Laws
pub mod Text
pub mod Cut
mod Tests
use itrace.Prelude.{
  ℕ, zero, suc, ◌+◌, ◌==◌, ◌||◌, ltb, if◌then◌else◌, Bool, true, false, List, [], ◌∷◌, ◌++◌, take,
  drop, length, replicate, map,
}

abbrev pub is_delim : ℕ → List ℕ → Bool
is_delim c [] = false
is_delim c (d ∷ delims) = (c == d) || is_delim c delims

-- What `strtok` finds: the run that `str` begins with, perhaps empty, and the elements after it.
unfoldable pub scan : (delims str : List ℕ) → List ℕ × List (List ℕ)
scan delims [] = ([], [])
scan delims (c ∷ str) =
    let (run, elements) = scan delims str in
    if is_delim c delims
    then ([], if length run == 0 then elements else run ∷ elements)
    else (c ∷ run, elements)

-- All that `strtok(str, delims)` and the calls of `strtok(NULL, delims)` after it return.
unfoldable pub strtok : (delims str : List ℕ) → List (List ℕ)
strtok delims str =
    let (run, elements) = scan delims str in if length run == 0 then elements else run ∷ elements

-- What `strtok` leaves of its string: the delimiter that ends an element becomes a zero. `within` says
-- whether an element has begun.
pub cut : (within : Bool) → (delims str : List ℕ) → List ℕ
cut within delims [] = []
cut within delims (c ∷ str) =
    let after = cut false delims str in
    let on = cut true delims str in
    if is_delim c delims then (if within then 0 else c) ∷ after else c ∷ on

-- Where the pointers stand that `strtok` returns; `at` is the position of what is ahead.
pub starts : (within : Bool) → (at : ℕ) → (delims str : List ℕ) → List ℕ
starts within at delims [] = []
starts within at delims (c ∷ str) =
    let after = starts false (suc at) delims str in
    let on = starts true (suc at) delims str in
    if is_delim c delims then after else if within then on else at ∷ on

-- `sizeof(result[j])`
abbrev pub row_size : ℕ
row_size = 32

-- `memset(result[i], 0, sizeof(result[i]))`
abbrev pub zero_row : List ℕ
zero_row = replicate row_size 0

-- The `for` loop that copies an element over a row, a byte at a time from `i` on; `left` bytes of the
-- row are ahead.
unfoldable pub copy_element : (left : ℕ) → (element row : List ℕ) → List ℕ
copy_element zero element row = row
copy_element (suc left) [] row = row
copy_element (suc left) (c ∷ element) [] = c ∷ copy_element left element []
copy_element (suc left) (c ∷ element) (x ∷ row) = c ∷ copy_element left element row

-- `result[j]`, `result[j + 1]`, … after the loop, and how many rows were written past the array.
pub record Rows : Type 0 where
  pub rows : List (List ℕ)
  pub past : ℕ

unfoldable pub store_elements : (elements rows : List (List ℕ)) → Rows
store_elements [] rows = record { rows = rows; past = 0 }
store_elements (e ∷ elements) [] = record {
  rows = [];
  past = suc (store_elements elements []).past;
}
store_elements (e ∷ elements) (row ∷ rows) =
    let r = store_elements elements rows in
    record { rows = copy_element row_size e row ∷ r.rows; past = r.past }

-- The result, and the array; an empty string leaves the array as it was.
unfoldable pub c_splite : (str delims : List ℕ) → (result : List (List ℕ)) → ℕ × Rows
c_splite str delims result = if length str == 0 then (0, record { rows = result; past = 0 }) else (
  length (strtok delims str),
  store_elements (strtok delims str) (map (λ row. zero_row) result),
)
