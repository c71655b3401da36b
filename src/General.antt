-- ===== src/General.antt =====
-- general/general.c: transfers of an exact length, and the test for a living process.
pub mod Readn
pub mod Writen
pub mod OneByte
mod Banner
mod Tests
use itrace.Prelude.{
  ℕ, zero, suc, ◌+◌, ◌-◌, ◌%◌, ◌^◌, List, [], ◌∷◌, ◌++◌, Option, none, some, true, false, ltb,
  if◌then◌else◌, length, take, drop, ℤ, pos, minus_one, is_neg, to_signed,
}
use itrace.Posix.{
  Errno, eintr, eagain, esrch, other, Answer, Source, Sink, read, got, failed, write, wrote,
  refused, is_transient,
}

-- `enum SystemStatus`
pub data SystemStatus : Type 0 where
  running stop : SystemStatus

-- `size_t` subtraction on the 32-bit ARM target.
abbrev pub sub_size : ℕ → ℕ → ℕ
sub_size a b = (a + 2 ^ 32 - b) % 2 ^ 32

-- `readn`'s result (`none` while a `read` blocks), the bytes stored at `vptr`, the source left.
pub record Received : Type 0 where
  pub ret : Option ℤ
  pub stored : List ℕ
  pub left : Source

-- The `while` loop of `readn`, a `read` for each answer.
unfoldable pub read_loop : (n nleft : ℕ) → (stored pending : List ℕ) → List Answer → Received
read_loop n nleft stored pending [] = record {
  ret = if ltb 0 nleft then none else some (to_signed (sub_size n nleft));
  stored = stored;
  left = record { pending = pending; answers = [] };
}
read_loop n nleft stored pending (a ∷ r) = elim (ltb 0 nleft) [
  | true ↦ elim (read a nleft pending) [
    | got [] ↦ record {
      ret = some (to_signed (sub_size n nleft));
      stored = stored;
      left = record { pending = pending; answers = r };
    }
    | got (b ∷ bs) ↦
        let nread = suc (length bs) in
        read_loop n (sub_size nleft nread) (stored ++ b ∷ bs) (drop nread pending) r
    | failed e ↦ elim (is_transient e) [
      | true ↦ read_loop n nleft stored pending r
      | false ↦ record {
        ret = some minus_one;
        stored = stored;
        left = record { pending = pending; answers = r };
      }
    ]
  ]
  | false ↦ record {
    ret = some (to_signed (sub_size n nleft));
    stored = stored;
    left = record { pending = pending; answers = a ∷ r };
  }
]

unfoldable pub readn : Source → ℕ → Received
unfolding read_loop
readn s n = read_loop n n [] s.pending s.answers

-- `writen`'s result (`none` while a `write` blocks) and the sink left.
pub record Sent : Type 0 where
  pub ret : Option ℤ
  pub sink : Sink

-- The `while` loop of `writen`, a `write` for each answer; `ptr` is the part of the buffer ahead.
unfoldable pub write_loop : (n nleft : ℕ) → (ptr accepted asked : List ℕ) → List Answer → Sent
write_loop n nleft ptr accepted asked [] = record {
  ret = if ltb 0 nleft then none else some (to_signed n);
  sink = record { accepted = accepted; asked = asked; answers = [] };
}
write_loop n nleft ptr accepted asked (a ∷ r) = elim (ltb 0 nleft) [
  | true ↦ elim (write a nleft) [
    | wrote zero ↦ record {
      ret = some minus_one;
      sink = record { accepted = accepted; asked = nleft ∷ asked; answers = r };
    }
    | wrote (suc k) ↦
        write_loop n (sub_size nleft (suc k)) (drop (suc k) ptr) (accepted ++ take (suc k) ptr)
          (nleft ∷ asked) r
    | refused e ↦ elim (is_transient e) [
      | true ↦ write_loop n nleft ptr accepted (nleft ∷ asked) r
      | false ↦ record {
        ret = some minus_one;
        sink = record { accepted = accepted; asked = nleft ∷ asked; answers = r };
      }
    ]
  ]
  | false ↦ record {
    ret = some (to_signed n);
    sink = record { accepted = accepted; asked = asked; answers = a ∷ r };
  }
]

-- A negative descriptor is refused before any `write`.
unfoldable pub writen : ℤ → Sink → List ℕ → ℕ → Sent
unfolding write_loop
writen fd s vptr n = elim (is_neg fd) [
  | true ↦ record { ret = some (pos 0); sink = s }
  | false ↦ write_loop n n vptr s.accepted s.asked s.answers
]

-- What `kill(target_pid, 0)` returns.
pub data KillResult : Type 0 where
  delivered : KillResult
  kill_failed : Errno → KillResult

pub is_process_alive : KillResult → ℕ
is_process_alive delivered = 1
is_process_alive (kill_failed esrch) = 0
is_process_alive (kill_failed e) = 1
