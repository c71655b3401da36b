-- ===== src/Socket/Transfer/Laws.antt =====
-- What `read_data` and `write_data` (private_libary/linux_socket/socket_protocol.c) do.
use itrace.Prelude.{
  ℕ, suc, ◌+◌, ◌-◌, ◌≤◌, ◌<◌, ◌≡◌, ◌⊎◌, List, [], ◌∷◌, ◌++◌, Option, none, some, length, drop, ℤ,
  pos, minus_one, arith, length-append, append_assoc,
}
use itrace.Posix.{Answer, Source, read}
use itrace.Posix.Calls.{ended, some_bytes, error, read-cases, read-prefix}
use itrace.General.{Received}
use itrace.Socket.Transfer.{read_data_loop, read_data}

-- 1 stands for all `n` bytes stored, -1 for fewer, and no other code is returned; a call blocks only
-- when the kernel has given all its answers.
abbrev pub Judged : (n k : ℕ) → List Answer → Option ℤ → Type 0
Judged n k answers none = answers ≡ []
Judged n k answers (some z) = ((z ≡ pos 1) × (k ≡ n)) ⊎ ((z ≡ minus_one) × (k < n))

-- What a call for `n` bytes has done, for any answers of the kernel.
pub record IsRead (n : ℕ) (stream : List ℕ) (r : Received) : Type 0 where
  pub conserved : r.stored ++ r.left.pending ≡ stream
  pub fits : length r.stored ≤ n
  pub outcome : Judged n (length r.stored) r.left.answers r.ret

read_data_loop-IsRead :
    (answers : List Answer) (n left_len count : ℕ) (stored pending : List ℕ)
    → length stored + left_len ≡ n
    → IsRead n (stored ++ pending) (read_data_loop left_len count stored pending answers)
unfolding read_data_loop
read_data_loop-IsRead [] n left_len count stored pending e = ground arith
read_data_loop-IsRead (a ∷ r) n left_len count stored pending e =
    elim (read-cases (read a left_len pending)) [
      | ended q ↦ ground (arith, read_data_loop-IsRead r n left_len (count + 1) stored pending)
      | some_bytes b bs q ↦ ground (
        arith,
        read-prefix a left_len pending (b ∷ bs),
        length-append stored (b ∷ bs),
        append_assoc stored (b ∷ bs) (drop (suc (length bs)) pending),
        read_data_loop-IsRead r n (left_len - suc (length bs)) 0 (stored ++ b ∷ bs)
            (drop (suc (length bs)) pending),
      )
      | error x q ↦ ground arith
    ]

-- For any answers of the kernel, `read_data` of `n` bytes stores a prefix of the stream, of at
-- most `n` bytes, and leaves the rest to be read; it returns 1 only when it has stored all `n`,
-- and otherwise -1, with fewer stored, or blocks when the kernel has given all its answers.
pub read_data-IsRead : (s : Source) (n : ℕ) → IsRead n s.pending (read_data s n)
unfolding read_data
read_data-IsRead s n = read_data_loop-IsRead s.answers n n 0 [] s.pending (omega arith)
