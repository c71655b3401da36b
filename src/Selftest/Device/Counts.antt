-- ===== src/Selftest/Device/Counts.antt =====
-- What the tests (acq_data_trans/test.c, cmd_status_trans/test.c) count of the bytes that they get from a device.
use itrace.Prelude.{
  ℕ, suc, ◌+◌, ◌≤◌, ◌≡◌, ◌≢◌, ◌⊎◌, refl, List, [], ◌∷◌, ◌++◌, append_assoc, drop, length, arith,
  Option, none, ℤ, is_pos, Bool, true, false,
}
use itrace.Posix.{Answer, Source, read}
use itrace.Posix.Calls.{ended, some_bytes, error, read-cases, read-prefix}
use itrace.Acq.Buffers.{max_dma_length}
use itrace.Selftest.Counting.{breaks, sum_inner}
use itrace.Selftest.Device.{Reads, read_pieces, Tested, exited, writing, no_memory, tested}

abbrev pub concat : List (List ℕ) → List ℕ
concat [] = []
concat (xs ∷ pieces) = xs ++ concat pieces

-- What the pieces are of the stream.
pub read_pieces-concat :
    (max : ℕ) (answers : List Answer) (pending : List ℕ)
    → let r = read_pieces max pending answers in concat r.pieces ++ r.left.pending ≡ pending
unfolding read_pieces
read_pieces-concat max [] pending = refl
read_pieces-concat max (a ∷ l) pending = elim (read-cases (read a max pending)) [
  | ended q ↦ ground (arith, read_pieces-concat max l pending)
  | some_bytes b bs q ↦ ground (
    arith,
    read-prefix a max pending (b ∷ bs),
    append_assoc (b ∷ bs) (concat (read_pieces max (drop (suc (length bs)) pending) l).pieces)
        (read_pieces max (drop (suc (length bs)) pending) l).left.pending,
    read_pieces-concat max l (drop (suc (length bs)) pending),
  )
  | error e q ↦ ground arith
]

-- The breaks that are counted in the pieces: all in the first, behind a 0, and those inside each other one.
abbrev pub counted : List (List ℕ) → ℕ
counted [] = 0
counted (xs ∷ pieces) = breaks 0 xs + sum_inner pieces

-- The pieces `got` have been read and counted, to a `read` that failed or one that blocks.
abbrev IsCounted :
    (err_cnt_sum : ℕ) → (is_over : Bool) → (stream : List ℕ) → Reads → Source → Type 0
IsCounted n over stream r dev =
    (n ≡ counted r.pieces)
    × (n ≤ breaks 0 (concat r.pieces))
    × (concat r.pieces ++ dev.pending ≡ stream)
    × (over ≡ r.is_over)
    × ((over ≡ true) ⊎ (dev.answers ≡ []))

-- The test leaves by `exit` where a call fails; otherwise it has counted all that it could read.
abbrev pub Counted : (opened : ℤ) → (area : Option ℕ) → Source → Tested × Source → Type 0
Counted opened area dev (exited, d) = ((is_pos opened ≡ false) ⊎ (area ≡ none)) × (d ≡ dev)
Counted opened area dev (writing, d) = ⊥
Counted opened area dev (no_memory, d) = ⊥
Counted opened area dev (tested n over, d) =
    (is_pos opened ≡ true)
    × (area ≢ none)
    × IsCounted n over dev.pending (read_pieces max_dma_length dev.pending dev.answers) d
