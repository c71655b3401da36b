-- ===== src/General/Writen.antt =====
-- `writen` (general/general.c): what it passes on and returns.
use itrace.Prelude.{
  ℕ, zero, suc, ◌+◌, ◌^◌, ◌≤◌, ◌<◌, ◌≡◌, refl, sym, List, [], ◌∷◌, ◌++◌, none, some, min, true,
  false, take, drop, append_assoc, append-nil, take-add, ℤ, pos, negsuc, is_neg, Bool-cases, inl,
  inr, AllLe, AllLe-snoc, Option, arith,
}
use itrace.Posix.{
  eintr, eagain, esrch, other, Answer, serve, nothing, refuse, Sink, write, is_transient,
}
use itrace.Posix.Reliable.{Reliable, serves}
use itrace.Posix.Calls.{
  none_taken, some_taken, error, write-cases, write-le, write-serve, write-refuse,
}
use itrace.General.{sub_size, Sent, write_loop, writen}

-- The call returns `n` when all is passed on, -1 before that, and blocks only before that, when
-- the kernel has given all its answers; `taken` of `nleft` bytes have been passed on.
abbrev LoopReturned : (n nleft taken : ℕ) → List Answer → Option ℤ → Type 0
LoopReturned n nleft taken answers none = (answers ≡ []) × (taken < nleft)
LoopReturned n nleft taken answers (some (pos j)) = (j ≡ n) × (taken ≡ nleft)
LoopReturned n nleft taken answers (some (negsuc j)) = (j ≡ 0) × (taken < nleft)

abbrev pub Returned : (n taken : ℕ) → List Answer → Option ℤ → Type 0
Returned n taken answers ret = LoopReturned n n taken answers ret

-- What a finished or blocked call has done, for any answers of the kernel: `taken` bytes of the
-- buffer have been passed on.
pub record IsPassed (n : ℕ) (buffer : List ℕ) (s : Sink) (r : Sent) : Type 0 where
  pub taken : ℕ
  pub moved : r.sink.accepted ≡ s.accepted ++ take taken buffer
  pub fits : taken ≤ n
  pub outcome : Returned n taken r.sink.answers r.ret
  -- The counts asked of `write`.
  pub log : List ℕ
  pub logged : r.sink.asked ≡ log ++ s.asked
  pub bounded : AllLe n log

record LoopPassed (n nleft : ℕ) (ahead before earlier : List ℕ) (r : Sent) : Type 0 where
  taken : ℕ
  moved : r.sink.accepted ≡ before ++ take taken ahead
  fits : taken ≤ nleft
  outcome : LoopReturned n nleft taken r.sink.answers r.ret
  log : List ℕ
  logged : r.sink.asked ≡ log ++ earlier
  bounded : AllLe n log

write_loop-LoopPassed :
    (answers : List Answer) (n nleft : ℕ) (ptr accepted asked : List ℕ)
    → nleft ≤ n
    → n < 2 ^ 31
    → LoopPassed n nleft ptr accepted asked (write_loop n nleft ptr accepted asked answers)
unfolding write_loop
write_loop-LoopPassed [] n nleft ptr accepted asked e h = record {
  taken = 0;
  moved = sym (append-nil accepted);
  fits = omega arith;
  outcome = ground arith;
  log = [];
  logged = refl;
  bounded = tt;
}
write_loop-LoopPassed (a ∷ r) n zero ptr accepted asked e h = record {
  taken = 0;
  moved = sym (append-nil accepted);
  fits = omega arith;
  outcome = ground arith;
  log = [];
  logged = refl;
  bounded = tt;
}
write_loop-LoopPassed (a ∷ r) n (suc m) ptr accepted asked e h =
    elim (write-cases (write a (suc m))) [
      | none_taken q ↦ record {
        taken = 0;
        moved = ground (arith, append-nil accepted);
        fits = omega arith;
        outcome = ground arith;
        log = suc m ∷ [];
        logged = ground arith;
        bounded = (e, tt);
      }
      | some_taken k q ↦
          let le = write-le a (suc m) (suc k) q in
          let ih =
            write_loop-LoopPassed r n (sub_size (suc m) (suc k)) (drop (suc k) ptr)
              (accepted ++ take (suc k) ptr) (suc m ∷ asked) (omega arith) h in
          record {
            taken = suc k + ih.taken;
            moved = ground (
              arith,
              ih.moved,
              append_assoc accepted (take (suc k) ptr) (take ih.taken (drop (suc k) ptr)),
              take-add (suc k) ih.taken ptr,
            );
            fits = omega (arith, ih.fits);
            outcome = ground (arith, ih.outcome);
            log = ih.log ++ suc m ∷ [];
            logged = ground (arith, ih.logged, append_assoc ih.log (suc m ∷ []) asked);
            bounded = AllLe-snoc n ih.log (suc m) ih.bounded e;
          }
      | error x q ↦
          let ih = write_loop-LoopPassed r n (suc m) ptr accepted (suc m ∷ asked) e h in
          elim (Bool-cases (is_transient x)) [
            | inl again ↦ record {
              taken = ih.taken;
              moved = ground (arith, ih.moved);
              fits = ih.fits;
              outcome = ground (arith, ih.outcome);
              log = ih.log ++ suc m ∷ [];
              logged = ground (arith, ih.logged, append_assoc ih.log (suc m ∷ []) asked);
              bounded = AllLe-snoc n ih.log (suc m) ih.bounded e;
            }
            | inr fatal ↦ record {
              taken = 0;
              moved = ground (arith, append-nil accepted);
              fits = omega arith;
              outcome = ground arith;
              log = suc m ∷ [];
              logged = ground arith;
              bounded = (e, tt);
            }
          ]
    ]

-- For any answers of the kernel and a valid descriptor, `writen` of `n < 2 ^ 31` bytes passes on a
-- prefix of the buffer, of at most `n` bytes, and never asks `write` for more than `n`; it returns
-- `n` only when all `n` bytes have been passed on, and its only other result is -1, with fewer
-- passed on; it blocks only with fewer passed on, when the kernel has given all its answers.
pub writen-IsPassed :
    (fd : ℤ) (s : Sink) (buffer : List ℕ) (n : ℕ)
    → is_neg fd ≡ false
    → n < 2 ^ 31
    → IsPassed n buffer s (writen fd s buffer n)
unfolding writen
writen-IsPassed fd s buffer n v h =
    let p = write_loop-LoopPassed s.answers n n buffer s.accepted s.asked (omega arith) h in
    rw (writen, v)
      (record {
        taken = p.taken;
        moved = p.moved;
        fits = p.fits;
        outcome = p.outcome;
        log = p.log;
        logged = p.logged;
        bounded = p.bounded;
      })

-- What a call that passes everything on has done.
pub record IsSent (n : ℕ) (buffer : List ℕ) (s : Sink) (r : Sent) : Type 0 where
  pub ret : r.ret ≡ some (pos n)
  pub accepted : r.sink.accepted ≡ s.accepted ++ take n buffer
  pub reliable : Reliable r.sink.answers
  pub served : serves s.answers ≤ serves r.sink.answers + n

record LoopSent (n nleft : ℕ) (ahead before : List ℕ) (answers : List Answer) (r : Sent)
    : Type 0 where
  ret : r.ret ≡ some (pos n)
  accepted : r.sink.accepted ≡ before ++ take nleft ahead
  reliable : Reliable r.sink.answers
  served : serves answers ≤ serves r.sink.answers + nleft

write_loop-LoopSent :
    (answers : List Answer) (n nleft : ℕ) (ptr accepted asked : List ℕ)
    → nleft ≤ n
    → n < 2 ^ 31
    → Reliable answers
    → nleft ≤ serves answers
    → LoopSent n nleft ptr accepted answers (write_loop n nleft ptr accepted asked answers)
unfolding write_loop
write_loop-LoopSent [] n zero ptr accepted asked e h rel sv = ground (arith, append-nil accepted)
write_loop-LoopSent [] n (suc m) ptr accepted asked e h rel sv = absurd (omega arith)
write_loop-LoopSent (a ∷ r) n zero ptr accepted asked e h rel sv =
    ground (arith, append-nil accepted)
write_loop-LoopSent (serve k ∷ r) n (suc m) ptr accepted asked e h rel sv =
    let j = suc (min k m) in
    let q = sub_size (suc m) j in
    ground (
      arith,
      write-serve k m,
      append_assoc accepted (take j ptr) (take q (drop j ptr)),
      take-add j q ptr,
      write_loop-LoopSent r n q (drop j ptr) (accepted ++ take j ptr) (suc m ∷ asked),
    )
write_loop-LoopSent (nothing ∷ r) n (suc m) ptr accepted asked e h rel sv = absurd rel
write_loop-LoopSent (refuse eintr ∷ r) n (suc m) ptr accepted asked e h rel sv = ground (
  arith,
  write-refuse eintr (suc m),
  write_loop-LoopSent r n (suc m) ptr accepted (suc m ∷ asked),
)
write_loop-LoopSent (refuse eagain ∷ r) n (suc m) ptr accepted asked e h rel sv = ground (
  arith,
  write-refuse eagain (suc m),
  write_loop-LoopSent r n (suc m) ptr accepted (suc m ∷ asked),
)
write_loop-LoopSent (refuse esrch ∷ r) n (suc m) ptr accepted asked e h rel sv = absurd rel
write_loop-LoopSent (refuse other ∷ r) n (suc m) ptr accepted asked e h rel sv = absurd rel

-- With a kernel that makes progress, `writen` of `n < 2 ^ 31` bytes to a valid descriptor comes back
-- with `n`, and has passed on exactly the first `n` bytes of the buffer.
pub writen-IsSent :
    (fd : ℤ) (s : Sink) (buffer : List ℕ) (n : ℕ)
    → is_neg fd ≡ false
    → n < 2 ^ 31
    → Reliable s.answers
    → n ≤ serves s.answers
    → IsSent n buffer s (writen fd s buffer n)
unfolding writen
writen-IsSent fd s buffer n v h rel sv =
    ground (arith, write_loop-LoopSent s.answers n n buffer s.accepted s.asked)

-- To a negative descriptor nothing is sent, and 0 is returned.
pub writen-negative :
    (fd : ℤ) (s : Sink) (buffer : List ℕ) (n : ℕ)
    → is_neg fd ≡ true
    → writen fd s buffer n ≡ record { ret = some (pos 0); sink = s }
unfolding writen
writen-negative fd s buffer n v = rw (writen, v)
