-- ===== src/General/Readn.antt =====
-- `readn` (general/general.c): what it stores and returns.
use itrace.Prelude.{
  ℕ, zero, suc, ◌+◌, ◌^◌, ◌≤◌, ◌<◌, ◌≡◌, List, [], ◌∷◌, ◌++◌, Option, none, some, ◌⊎◌, length, take,
  drop, length-append, length-take, length-drop, take-resume, min, append_assoc, append-nil, ℤ, pos,
  negsuc, arith,
}
use itrace.Posix.{eintr, eagain, esrch, other, Answer, serve, nothing, refuse, Source, read}
use itrace.Posix.Reliable.{Reliable, serves}
use itrace.Posix.Calls.{
  ended, some_bytes, error, read-cases, read-prefix, read-refuse, read-serve_nil, read-serve_cons,
}
use itrace.General.{sub_size, Received, read_loop, readn}

-- A count is that of the `k` bytes stored, the only error is -1, before all `n` bytes are stored, and
-- a call blocks only before all `n` bytes are stored, when the kernel has given all its answers.
abbrev pub Returned : (n k : ℕ) → List Answer → Option ℤ → Type 0
Returned n k answers none = (answers ≡ []) × (k < n)
Returned n k answers (some (pos j)) = j ≡ k
Returned n k answers (some (negsuc j)) = (j ≡ 0) × (k < n)

-- What a finished or blocked call has done, for any answers of the kernel.
pub record IsReceipt (n : ℕ) (stream : List ℕ) (r : Received) : Type 0 where
  -- The bytes stored are the next bytes of the stream, in order, and the rest is still there.
  pub conserved : r.stored ++ r.left.pending ≡ stream
  -- Nothing is stored beyond the `n` bytes of the caller's buffer.
  pub fits : length r.stored ≤ n
  pub outcome : Returned n (length r.stored) r.left.answers r.ret

read_loop-IsReceipt :
    (answers : List Answer) (n nleft : ℕ) (stored pending : List ℕ)
    → length stored + nleft ≡ n
    → n < 2 ^ 31
    → IsReceipt n (stored ++ pending) (read_loop n nleft stored pending answers)
unfolding read_loop
read_loop-IsReceipt [] n nleft stored pending e h = ground arith
read_loop-IsReceipt (a ∷ r) n nleft stored pending e h = elim (read-cases (read a nleft pending)) [
  | ended q ↦ ground arith
  | some_bytes b bs q ↦ ground (
    arith,
    read-prefix a nleft pending (b ∷ bs),
    length-append stored (b ∷ bs),
    append_assoc stored (b ∷ bs) (drop (suc (length bs)) pending),
    read_loop-IsReceipt r n (sub_size nleft (suc (length bs))) (stored ++ b ∷ bs)
        (drop (suc (length bs)) pending),
  )
  | error x q ↦ ground (arith, read_loop-IsReceipt r n nleft stored pending)
]

-- For any answers of the kernel, `readn` of `n < 2 ^ 31` bytes stores a prefix of the stream, of
-- at most `n` bytes, and leaves the rest of the stream to be read; a count that it returns is the
-- number of the bytes stored, and its only other result is -1, with fewer than `n` bytes stored;
-- it blocks only with fewer than `n` bytes stored, when the kernel has given all its answers.
pub readn-IsReceipt : (s : Source) (n : ℕ) → n < 2 ^ 31 → IsReceipt n s.pending (readn s n)
unfolding readn
readn-IsReceipt s n h = read_loop-IsReceipt s.answers n n [] s.pending (omega arith) h

-- What a call that comes back with all that it can get has done.
pub record IsFull (n : ℕ) (stream : List ℕ) (r : Received) : Type 0 where
  pub ret : r.ret ≡ some (pos (min n (length stream)))
  pub stored : r.stored ≡ take n stream
  pub left : r.left.pending ≡ drop n stream
  pub reliable : Reliable r.left.answers
  pub served : (length r.left.pending < serves r.left.answers) ⊎ (length stream < n)

record LoopFull (m : ℕ) (before pending : List ℕ) (r : Received) : Type 0 where
  ret : r.ret ≡ some (pos (length before + min m (length pending)))
  stored : r.stored ≡ before ++ take m pending
  left : r.left.pending ≡ drop m pending
  reliable : Reliable r.left.answers
  served : (length r.left.pending < serves r.left.answers) ⊎ (length pending < m)

read_loop-LoopFull :
    (answers : List Answer) (n nleft : ℕ) (stored pending : List ℕ)
    → length stored + nleft ≡ n
    → n < 2 ^ 31
    → Reliable answers
    → length pending < serves answers
    → LoopFull nleft stored pending (read_loop n nleft stored pending answers)
unfolding read_loop
read_loop-LoopFull [] n nleft stored pending e h rel sv = absurd (omega arith)
read_loop-LoopFull (serve k ∷ r) n zero stored pending e h rel sv =
    ground (arith, append-nil stored)
read_loop-LoopFull (serve k ∷ r) n (suc m) stored [] e h rel sv =
    ground (arith, read-serve_nil k (suc m), append-nil stored)
read_loop-LoopFull (serve k ∷ r) n (suc m) stored (x ∷ xs) e h rel sv =
    let bs = take (min k m) xs in
    let q = sub_size (suc m) (suc (length bs)) in
    ground (
      arith,
      read-serve_cons k m x xs,
      take-resume k m q xs,
      length-take (min k m) xs,
      length-append stored (x ∷ bs),
      length-drop (length bs) xs,
      append_assoc stored (x ∷ bs) (take q (drop (length bs) xs)),
      read_loop-LoopFull r n q (stored ++ x ∷ bs) (drop (length bs) xs),
    )
read_loop-LoopFull (nothing ∷ r) n nleft stored pending e h rel sv = absurd rel
read_loop-LoopFull (refuse eintr ∷ r) n nleft stored pending e h rel sv = ground (
  arith,
  read-refuse eintr nleft pending,
  append-nil stored,
  read_loop-LoopFull r n nleft stored pending,
)
read_loop-LoopFull (refuse eagain ∷ r) n nleft stored pending e h rel sv = ground (
  arith,
  read-refuse eagain nleft pending,
  append-nil stored,
  read_loop-LoopFull r n nleft stored pending,
)
read_loop-LoopFull (refuse esrch ∷ r) n nleft stored pending e h rel sv = absurd rel
read_loop-LoopFull (refuse other ∷ r) n nleft stored pending e h rel sv = absurd rel

-- With a kernel that makes progress and more transfers to come than bytes, `readn` of `n < 2 ^ 31`
-- bytes comes back, with the next `n` bytes of the stream or with all that is left of it; it returns
-- their number, and the stream goes on after them.
pub readn-IsFull :
    (s : Source) (n : ℕ)
    → n < 2 ^ 31
    → Reliable s.answers
    → length s.pending < serves s.answers
    → IsFull n s.pending (readn s n)
unfolding readn
readn-IsFull s n h rel sv = ground (arith, read_loop-LoopFull s.answers n n [] s.pending)
