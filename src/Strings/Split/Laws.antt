-- ===== src/Strings/Split/Laws.antt =====
-- What `c_splite` leaves in its array, and what it returns.
use itrace.Prelude.{
  ℕ, zero, suc, ◌-◌, ◌≡◌, refl, ap, ◌∙◌, List, [], ◌∷◌, ◌++◌, length, map, arith, take, replicate,
}
use itrace.Strings.Split.{strtok, row_size, zero_row, copy_element, store_elements, Rows, c_splite}

-- A row with an element in it: its first 32 bytes, and zeros behind them.
abbrev pub padded : List ℕ → List ℕ
padded e = take row_size e ++ replicate (row_size - length e) 0

-- The array of `n` rows with the elements in it.
abbrev pub filled : (n : ℕ) → List (List ℕ) → List (List ℕ)
filled zero elements = []
filled (suc n) [] = zero_row ∷ filled n []
filled (suc n) (e ∷ elements) = padded e ∷ filled n elements

copy_element-zeros :
    (n : ℕ) (e : List ℕ) → copy_element n e (replicate n 0) ≡ take n e ++ replicate (n - length e) 0
unfolding copy_element
copy_element-zeros zero e = ap (λ k. replicate k 0) (zero_minus (length e))
  where
    zero_minus : (k : ℕ) → 0 ≡ 0 - k
    zero_minus k = omega arith
copy_element-zeros (suc n) [] = ap (λ k. replicate k 0) (minus_zero (suc n))
  where
    minus_zero : (k : ℕ) → k ≡ k - 0
    minus_zero k = omega arith
copy_element-zeros (suc n) (c ∷ e) =
    ap (λ r. c ∷ r) (copy_element-zeros n e ∙ ap (λ k. take n e ++ replicate k 0) (omega arith))

zero_rows : (result : List (List ℕ)) → map (λ row. zero_row) result ≡ filled (length result) []
zero_rows [] = refl
zero_rows (r ∷ result) = ap (λ rs. zero_row ∷ rs) (zero_rows result)

store_elements-past :
    (elements : List (List ℕ)) → (store_elements elements []).past ≡ length elements
unfolding store_elements
store_elements-past [] = refl
store_elements-past (e ∷ elements) = ap suc (store_elements-past elements)

record Stored (elements result : List (List ℕ)) (r : Rows) : Type 0 where
  rows : r.rows ≡ filled (length result) elements
  past : r.past ≡ length elements - length result

store_elements-Stored :
    (elements result : List (List ℕ))
    → Stored elements result (store_elements elements (map (λ row. zero_row) result))
unfolding store_elements
store_elements-Stored [] result = record { rows = zero_rows result; past = omega arith }
store_elements-Stored (e ∷ elements) [] = record {
  rows = refl;
  past = omega (arith, store_elements-past elements);
}
store_elements-Stored (e ∷ elements) (row ∷ result) =
    let ih = store_elements-Stored elements result in
    record {
      rows = ground (arith, copy_element-zeros row_size e, ih.rows);
      past = omega (arith, ih.past);
    }

-- For a string that is not empty, `c_splite` returns the number of elements, whatever the array
-- holds; each row of the array gets the first 32 bytes of its element and zeros behind them, a row
-- with no element gets zeros, and the elements beyond the rows are written past the array.
pub c_splite-rows :
    (c : ℕ) (str delims : List ℕ) (result : List (List ℕ))
    → ((c_splite (c ∷ str) delims result).0 ≡ length (strtok delims (c ∷ str)))
      × ((c_splite (c ∷ str) delims result).1.rows
          ≡ filled (length result) (strtok delims (c ∷ str)))
      × ((c_splite (c ∷ str) delims result).1.past
          ≡ length (strtok delims (c ∷ str)) - length result)
unfolding c_splite
c_splite-rows c str delims result =
    let v = store_elements-Stored (strtok delims (c ∷ str)) result in
    (ground arith, ground (arith, v.rows), ground (arith, v.past))
