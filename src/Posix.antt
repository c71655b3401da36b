-- ===== src/Posix.antt =====
-- The system calls that the program makes on a descriptor, one answer of the kernel at a time.
-- A `Source` is the reading end of a descriptor and a `Sink` the writing end. The list of answers
-- is chosen by the environment: every theorem ranges over it, so it covers every way in which a
-- transfer is cut into pieces, interrupted or refused. A list that runs out is a call that blocks.
pub mod Reliable
pub mod Calls
use itrace.Prelude.{ℕ, suc, List, [], ◌∷◌, Bool, true, false, min, take}

-- The values of `errno` that the program tells apart.
pub data Errno : Type 0 where
  eintr eagain esrch other : Errno

-- One answer of the kernel to a `read` or a `write`.
pub data Answer : Type 0 where
  serve : ℕ → Answer  -- `serve k`: up to k + 1 bytes can be moved at once
  nothing : Answer  -- the call returns 0
  refuse : Errno → Answer  -- the call returns -1 and sets `errno`

-- What the peer or the device will have delivered in all, and the answers to come.
pub record Source : Type 0 where
  pub pending : List ℕ
  pub answers : List Answer

-- The bytes that the kernel has taken, the counts asked of `write` (newest first), the answers to
-- come.
pub record Sink : Type 0 where
  pub accepted : List ℕ
  pub asked : List ℕ
  pub answers : List Answer

-- The result of `read`: the bytes stored (none at the end of the stream), or -1 with `errno`.
pub data ReadResult : Type 0 where
  got : List ℕ → ReadResult
  failed : Errno → ReadResult

-- `read` returns at most `n` of the bytes pending, in order.
unfoldable pub read : Answer → ℕ → List ℕ → ReadResult
read (serve k) n pending = got (take (min (suc k) n) pending)
read nothing n pending = got []
read (refuse e) n pending = failed e

-- The result of `write`: the count taken, or -1 with `errno`.
pub data WriteResult : Type 0 where
  wrote : ℕ → WriteResult
  refused : Errno → WriteResult

unfoldable pub write : Answer → ℕ → WriteResult
write (serve k) n = wrote (min (suc k) n)
write nothing n = wrote 0
write (refuse e) n = refused e

-- `errno == EINTR || errno == EAGAIN`
abbrev pub is_transient : Errno → Bool
is_transient eintr = true
is_transient eagain = true
is_transient esrch = false
is_transient other = false
