-- ===== src/Selftest.antt =====
-- acq_data_trans/test.c and cmd_status_trans/test.c: the check that a stream of bytes counts upwards,
-- and the loops that read the stream in pieces. A `char` is kept as a number below 256.
pub mod Counting
pub mod Device
mod Tests
use itrace.Prelude.{
  ℕ, zero, suc, ◌+◌, ◌%◌, ◌-◌, List, [], ◌∷◌, Bool, true, false, ◌==◌, if◌then◌else◌, get_or,
  length, not,
}

-- `start_val++`
abbrev pub next_char : ℕ → ℕ
next_char c = (c + 1) % 256

-- `c - 1`, stored in a `char`
abbrev pub prev_char : ℕ → ℕ
prev_char c = (c + 255) % 256

-- The `for` loop of `check_data_inc`.
pub check_loop : (start_val err_cnt : ℕ) → List ℕ → ℕ
check_loop start_val err_cnt [] = err_cnt
check_loop start_val err_cnt (x ∷ xs) =
    let v = next_char start_val in
    check_loop (if v == x then v else x) (if v == x then err_cnt else err_cnt + 1) xs

-- `data` holds `length` bytes; `data[0]` of no bytes is read as `junk`.
pub check_data_inc : (junk start_val start_val_vaild : ℕ) → List ℕ → ℕ
unfolding check_loop
check_data_inc junk start_val start_val_vaild xs =
    check_loop (if start_val_vaild == 1 then prev_char (get_or xs 0 junk) else start_val) 0 xs

-- The state that `read_dma_test` and `cmd_status_trans_rw_test` carry from one `read` to the next.
pub record TestState : Type 0 where
  pub err_cnt_sum : ℕ
  pub is_first_read : Bool
  pub start_val : ℕ

abbrev pub last_or : List ℕ → ℕ → ℕ
last_or [] d = d
last_or (x ∷ xs) d = last_or xs x

-- One successful `read` of the bytes `xs`; after a `read` of none, `data[-1]` is read, as `junk`.
test_round : (junk : ℕ) → TestState → List ℕ → TestState
unfolding check_data_inc
test_round junk t xs = record {
  err_cnt_sum =
      t.err_cnt_sum
      + (if t.is_first_read
          then check_data_inc junk t.start_val 0 xs
          else check_data_inc junk t.start_val 1 xs);
  is_first_read = if t.is_first_read then not t.is_first_read else t.is_first_read;
  start_val = last_or xs junk;
}

-- The `while (1)` loop, over the pieces that `read` returns until it fails.
pub read_test_loop : (junk : ℕ) → TestState → List (List ℕ) → TestState
unfolding test_round
read_test_loop junk t [] = t
read_test_loop junk t (xs ∷ reads) = read_test_loop junk (test_round junk t xs) reads

abbrev pub read_test : (junk : ℕ) → List (List ℕ) → ℕ
read_test junk reads =
    (read_test_loop junk (record { err_cnt_sum = 0; is_first_read = true; start_val = 0 })
      reads).err_cnt_sum
