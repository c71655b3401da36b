-- ===== src/Posix/Calls.antt =====
-- What one `read` or `write` can return, whatever the kernel answers.
use itrace.Prelude.{
  ℕ, zero, suc, ◌≤◌, ◌≡◌, refl, ap, List, [], ◌∷◌, ◌++◌, min, length, take, drop, take_of_le,
  length-take, arith,
}
use itrace.Posix.{
  Errno, Answer, serve, nothing, refuse, ReadResult, got, failed, read, WriteResult, wrote, refused,
  write,
}

-- The cases that the program's loops tell apart.
pub data ReadCase (r : ReadResult) : Type 0 where
  ended : r ≡ got [] → ReadCase r
  some_bytes : (b : ℕ) (bs : List ℕ) → r ≡ got (b ∷ bs) → ReadCase r
  error : (e : Errno) → r ≡ failed e → ReadCase r

pub read-cases : (r : ReadResult) → ReadCase r
read-cases (got []) = ended refl
read-cases (got (b ∷ bs)) = some_bytes b bs refl
read-cases (failed e) = error e refl

pub data WriteCase (r : WriteResult) : Type 0 where
  none_taken : r ≡ wrote 0 → WriteCase r
  some_taken : (k : ℕ) → r ≡ wrote (suc k) → WriteCase r
  error : (e : Errno) → r ≡ refused e → WriteCase r

pub write-cases : (r : WriteResult) → WriteCase r
write-cases (wrote zero) = none_taken refl
write-cases (wrote (suc k)) = some_taken k refl
write-cases (refused e) = error e refl

pub take-split : (m : ℕ) (xs : List ℕ) → take m xs ++ drop (length (take m xs)) xs ≡ xs
take-split zero xs = refl
take-split (suc m) [] = refl
take-split (suc m) (x ∷ xs) = ap (λ r. x ∷ r) (take-split m xs)

-- The bytes read are a prefix of the bytes pending, no more than were asked for.
pub read-prefix :
    (a : Answer) (n : ℕ) (pending bs : List ℕ)
    → read a n pending ≡ got bs
    → (bs ++ drop (length bs) pending ≡ pending) × (length bs ≤ n)
unfolding read
read-prefix (serve k) n pending bs h =
    ground (arith, take-split (min (suc k) n) pending, length-take (min (suc k) n) pending)
read-prefix nothing n pending bs h = ground arith
read-prefix (refuse e) n pending bs h = cc

pub write-le : (a : Answer) (n k : ℕ) → write a n ≡ wrote k → k ≤ n
unfolding write
write-le (serve k) n m h = ground arith
write-le nothing n m h = ground arith
write-le (refuse e) n m h = ground arith

-- A kernel that serves moves at least one byte, unless the stream has ended.
pub read-serve_nil : (k n : ℕ) → read (serve k) n [] ≡ got []
unfolding read
read-serve_nil k n = ap got (take_of_le (min (suc k) n) [] (omega arith))

pub read-serve_cons :
    (k m x : ℕ) (xs : List ℕ) → read (serve k) (suc m) (x ∷ xs) ≡ got (x ∷ take (min k m) xs)
unfolding read
read-serve_cons k m x xs = ap (λ j. got (take j (x ∷ xs))) (min-suc k m)
  where
    min-suc : (a b : ℕ) → min (suc a) (suc b) ≡ suc (min a b)
    min-suc a b = omega arith

pub read-refuse : (e : Errno) (n : ℕ) (xs : List ℕ) → read (refuse e) n xs ≡ failed e
unfolding read
read-refuse e n xs = refl

pub read-nothing : (n : ℕ) (xs : List ℕ) → read nothing n xs ≡ got []
unfolding read
read-nothing n xs = refl

pub write-nothing : (n : ℕ) → write nothing n ≡ wrote 0
unfolding write
write-nothing n = refl

pub write-refuse : (e : Errno) (n : ℕ) → write (refuse e) n ≡ refused e
unfolding write
write-refuse e n = refl

pub write-serve : (k m : ℕ) → write (serve k) (suc m) ≡ wrote (suc (min k m))
unfolding write
write-serve k m = ap wrote (omega arith)
