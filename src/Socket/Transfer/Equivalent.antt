-- ===== src/Socket/Transfer/Equivalent.antt =====
-- `read_data` (private_libary/linux_socket/socket_protocol.c) and `readn` (general/general.c), the two routines
-- of the program that read an exact count.
use itrace.Prelude.{
  ℕ, zero, suc, ◌+◌, ◌-◌, ◌^◌, ◌≤◌, ◌<◌, ◌≡◌, List, [], ◌∷◌, ◌++◌, Option, none, some,
  if◌then◌else◌, length, take, drop, ℤ, pos, minus_one, ◌==ℤ◌, arith, min, length-take, length-drop,
  length-append,
}
use itrace.Posix.{Answer, serve, nothing, refuse, eintr, eagain, esrch, other, Source}
use itrace.Posix.Calls.{read-serve_cons, read-refuse}
use itrace.General.{Received, read_loop, readn}
use itrace.Socket.Transfer.{read_data_loop, read_data}

-- Up to an error that is not transient, every call moves bytes.
abbrev Steady : List Answer → Type 0
Steady [] = Unit
Steady (serve k ∷ r) = Steady r
Steady (nothing ∷ r) = ⊥
Steady (refuse eintr ∷ r) = ⊥
Steady (refuse eagain ∷ r) = ⊥
Steady (refuse esrch ∷ r) = Unit
Steady (refuse other ∷ r) = Unit

-- What `read_data` returns where `readn` of `n` bytes has returned `ret`.
abbrev pub as_verdict : ℕ → Option ℤ → Option ℤ
as_verdict n none = none
as_verdict n (some ret) = some (if ret ==ℤ pos n then pos 1 else minus_one)

record IsSame (n : ℕ) (r q : Received) : Type 0 where
  pub ret : r.ret ≡ as_verdict n q.ret
  pub stored : r.stored ≡ q.stored
  pub left : r.left ≡ q.left

loops-IsSame :
    (answers : List Answer) (n left_len count : ℕ) (stored pending : List ℕ)
    → length stored + left_len ≡ n
    → n < 2 ^ 31
    → Steady answers
    → left_len ≤ length pending
    → IsSame n
        (read_data_loop left_len count stored pending answers)
        (read_loop n left_len stored pending answers)
unfolding read_data_loop read_loop
loops-IsSame [] n zero count stored pending e h st le = ground arith
loops-IsSame [] n (suc m) count stored pending e h st le = ground arith
loops-IsSame (a ∷ r) n zero count stored pending e h st le = ground arith
loops-IsSame (serve k ∷ r) n (suc m) count stored [] e h st le = absurd (omega arith)
loops-IsSame (serve k ∷ r) n (suc m) count stored (x ∷ xs) e h st le =
    let bs = take (min k m) xs in
    ground (
      arith,
      read-serve_cons k m x xs,
      length-take (min k m) xs,
      length-drop (length bs) xs,
      length-append stored (x ∷ bs),
      loops-IsSame r n (suc m - suc (length bs)) 0 (stored ++ x ∷ bs) (drop (length bs) xs),
    )
loops-IsSame (refuse esrch ∷ r) n (suc m) count stored pending e h st le =
    ground (arith, read-refuse esrch (suc m) pending)
loops-IsSame (refuse other ∷ r) n (suc m) count stored pending e h st le =
    ground (arith, read-refuse other (suc m) pending)
loops-IsSame (nothing ∷ r) n (suc m) count stored pending e h st le = absurd st
loops-IsSame (refuse eintr ∷ r) n (suc m) count stored pending e h st le = absurd st
loops-IsSame (refuse eagain ∷ r) n (suc m) count stored pending e h st le = absurd st

-- Where the stream has the `n < 2 ^ 31` bytes asked for, and every call moves bytes until an error that is not
-- transient, `read_data` and `readn` store the same bytes, leave the same, and block alike; `read_data`
-- returns 1 where `readn` returns `n`, and -1 where `readn` returns anything else.
pub read_data-readn :
    (s : Source) (n : ℕ)
    → n < 2 ^ 31
    → Steady s.answers
    → n ≤ length s.pending
    → let r = read_data s n in
      let q = readn s n in (r.ret ≡ as_verdict n q.ret) × (r.stored ≡ q.stored) × (r.left ≡ q.left)
unfolding read_data readn
read_data-readn s n h st le =
    let same = loops-IsSame s.answers n n 0 [] s.pending (omega arith) h st le in
    (same.ret, same.stored, same.left)
