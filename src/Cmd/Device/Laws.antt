-- ===== src/Cmd/Device/Laws.antt =====
-- `writen_to_cmd_status_dev` (cmd_status_trans/server.c): what it passes on and returns.
use itrace.Prelude.{
  ℕ, zero, suc, ◌+◌, ◌-◌, ◌^◌, ◌≤◌, ◌<◌, ◌≡◌, ◌⊎◌, refl, ap, List, [], ◌++◌, Option, none, some,
  false, drop, take, ℤ, pos, negsuc, ◌==ℤ◌, is_neg, AllLe, AllLe-mono, AllLe-append_of, append-nil,
  append_assoc, take-add, drop-drop, Bool-cases, inl, inr, arith,
}
use itrace.Posix.{Answer, Sink}
use itrace.Posix.Reliable.{Reliable, serves}
use itrace.General.{Sent, writen}
use itrace.General.Writen.{writen-IsPassed, IsSent, writen-IsSent}
use itrace.Cmd.Device.{max_write_len_once, piece, write_pieces, writen_to_cmd_status_dev}

-- A count returned is at most the `taken` bytes passed on, no error code is returned, and a call
-- blocks only when the kernel has given all its answers.
abbrev pub Counted : (taken : ℕ) → List Answer → Option ℤ → Type 0
Counted taken answers none = answers ≡ []
Counted taken answers (some (pos k)) = k ≤ taken
Counted taken answers (some (negsuc j)) = ⊥

-- What a call of length `len` has done that moved `taken` bytes.
pub record IsMoved (len : ℕ) (buffer : List ℕ) (s : Sink) (r : Sent) : Type 0 where
  pub taken : ℕ
  pub moved : r.sink.accepted ≡ s.accepted ++ take taken buffer
  pub fits : taken ≤ len
  pub outcome : Counted taken r.sink.answers r.ret
  pub log : List ℕ
  pub logged : r.sink.asked ≡ log ++ s.asked
  pub bounded : AllLe max_write_len_once log

record PiecesMoved (len left_len : ℕ) (buffer before : List ℕ) (s : Sink) (r : Sent) : Type 0 where
  taken : ℕ
  moved : r.sink.accepted ≡ before ++ take taken buffer
  fits : taken ≤ len
  outcome : Counted taken r.sink.answers r.ret
  log : List ℕ
  logged : r.sink.asked ≡ log ++ s.asked
  bounded : AllLe max_write_len_once log

take-none : (xs : List ℕ) (k : ℕ) → k ≡ 0 → take k xs ≡ []
take-none xs k e = ap (λ n. take n xs) e

drop-none : (xs : List ℕ) (k : ℕ) → k ≡ 0 → drop k xs ≡ xs
drop-none xs k e = ap (λ n. drop n xs) e

piece_bounds :
    (m : ℕ) → (0 < piece (suc m)) × (piece (suc m) ≤ suc m) × (piece (suc m) ≤ max_write_len_once)
unfolding piece
piece_bounds m = ground arith

Option-cases : (o : Option ℤ) → (o ≡ none) ⊎ ((a : ℤ) × (o ≡ some a))
Option-cases none = inl refl
Option-cases (some a) = inr (a, refl)

module _ (fd : ℤ) (valid : is_neg fd ≡ false) (buffer before : List ℕ) (len : ℕ)
    (small : len < 2 ^ 31) where
  write_pieces-PiecesMoved :
      (fuel left_len : ℕ) (s : Sink)
      → left_len ≤ len
      → left_len < fuel
      → s.accepted ≡ before ++ take (len - left_len) buffer
      → PiecesMoved len left_len buffer before s (write_pieces fuel fd buffer len left_len s)
  unfolding write_pieces
  write_pieces-PiecesMoved zero left_len s le lt e = absurd (omega arith)
  write_pieces-PiecesMoved (suc fuel) zero s le lt e = record {
    taken = len - 0;
    moved = e;
    fits = omega arith;
    outcome = ground arith;
    log = [];
    logged = refl;
    bounded = tt;
  }
  write_pieces-PiecesMoved (suc fuel) (suc m) s le lt e =
      let done = len - suc m in
      let n = piece (suc m) in
      let (some_left, within, bound) = piece_bounds m in
      let p = writen-IsPassed fd s (drop done buffer) n valid (omega arith) in
      let r = writen fd s (drop done buffer) n in
      elim (Option-cases r.ret) [
        | inl wait ↦ record {
          taken = done + p.taken;
          moved = ground (
            arith,
            p.moved,
            append_assoc before (take done buffer) (take p.taken (drop done buffer)),
            take-add done p.taken buffer,
          );
          fits = ground (arith, p.fits);
          outcome = ground (arith, p.outcome);
          log = p.log;
          logged = ground (arith, p.logged);
          bounded = AllLe-mono n max_write_len_once p.log bound p.bounded;
        }
        | inr (a, q) ↦ elim (Bool-cases (a ==ℤ pos n)) [
          | inl whole ↦
              let left = suc m - n in
              let ih = write_pieces-PiecesMoved fuel left r.sink (omega arith) (omega arith) (
                ground (
                  arith,
                  p.moved,
                  p.outcome,
                  append_assoc before (take done buffer) (take n (drop done buffer)),
                  take-add done n buffer,
                )) in
              record {
                taken = ih.taken;
                moved = ground (arith, ih.moved);
                fits = ih.fits;
                outcome = ground (arith, ih.outcome);
                log = ih.log ++ p.log;
                logged = ground (arith, ih.logged, p.logged, append_assoc ih.log p.log s.asked);
                bounded =
                    AllLe-append_of max_write_len_once ih.log p.log ih.bounded
                      (AllLe-mono n max_write_len_once p.log bound p.bounded);
              }
          | inr part ↦ record {
            taken = done + p.taken;
            moved = ground (
              arith,
              p.moved,
              append_assoc before (take done buffer) (take p.taken (drop done buffer)),
              take-add done p.taken buffer,
            );
            fits = ground (arith, p.fits);
            outcome = ground (arith, p.outcome);
            log = p.log;
            logged = ground (arith, p.logged);
            bounded = AllLe-mono n max_write_len_once p.log bound p.bounded;
          }
        ]
      ]

-- For any answers of the kernel and a valid descriptor, `writen_to_cmd_status_dev` of `len < 2 ^
-- 31` bytes passes on a prefix of the buffer, of at most `len` bytes, and never asks `write` for
-- more than 0x1000; it returns a count, never more than what it has passed on, and blocks only
-- when the kernel has given all its answers.
pub writen_to_cmd_status_dev-IsMoved :
    (fd : ℤ) (s : Sink) (buffer : List ℕ) (len : ℕ)
    → is_neg fd ≡ false
    → len < 2 ^ 31
    → IsMoved len buffer s (writen_to_cmd_status_dev fd s buffer len)
unfolding writen_to_cmd_status_dev
writen_to_cmd_status_dev-IsMoved fd s buffer len v h =
    let p =
      write_pieces-PiecesMoved fd v buffer s.accepted len h (len + 1) len s (omega arith)
        (omega arith) (ground (arith, append-nil s.accepted, take-none buffer (len - len))) in
    record {
      taken = p.taken;
      moved = p.moved;
      fits = p.fits;
      outcome = p.outcome;
      log = p.log;
      logged = p.logged;
      bounded = p.bounded;
    }

record PiecesSent (len left_len : ℕ) (buffer : List ℕ) (s : Sink) (r : Sent) : Type 0 where
  ret : r.ret ≡ some (pos len)
  accepted : r.sink.accepted ≡ s.accepted ++ take left_len (drop (len - left_len) buffer)
  reliable : Reliable r.sink.answers
  served : serves s.answers ≤ serves r.sink.answers + left_len

module _ (fd : ℤ) (valid : is_neg fd ≡ false) (buffer : List ℕ) (len : ℕ)
    (small : len < 2 ^ 31) where
  write_pieces-PiecesSent :
      (fuel left_len : ℕ) (s : Sink)
      → left_len ≤ len
      → left_len < fuel
      → Reliable s.answers
      → left_len ≤ serves s.answers
      → PiecesSent len left_len buffer s (write_pieces fuel fd buffer len left_len s)
  unfolding write_pieces
  write_pieces-PiecesSent zero left_len s le lt rel sv = absurd (omega arith)
  write_pieces-PiecesSent (suc fuel) zero s le lt rel sv = ground (arith, append-nil s.accepted)
  write_pieces-PiecesSent (suc fuel) (suc m) s le lt rel sv =
      let done = len - suc m in
      let n = piece (suc m) in
      let (some_left, within, bound) = piece_bounds m in
      let left = suc m - n in
      let r = writen fd s (drop done buffer) n in
      ground (
        arith,
        writen-IsSent fd s (drop done buffer) n valid,
        append_assoc s.accepted (take n (drop done buffer)) (take left (drop (done + n) buffer)),
        drop-drop done n buffer,
        take-add n left (drop done buffer),
        write_pieces-PiecesSent fuel left r.sink,
      )

-- With a kernel that makes progress, `writen_to_cmd_status_dev` of `len < 2 ^ 31` bytes to a valid
-- descriptor comes back with `len`, and has passed on exactly the first `len` bytes of the buffer.
pub writen_to_cmd_status_dev-IsSent :
    (fd : ℤ) (s : Sink) (buffer : List ℕ) (len : ℕ)
    → is_neg fd ≡ false
    → len < 2 ^ 31
    → Reliable s.answers
    → len ≤ serves s.answers
    → IsSent len buffer s (writen_to_cmd_status_dev fd s buffer len)
unfolding writen_to_cmd_status_dev
writen_to_cmd_status_dev-IsSent fd s buffer len v h rel sv =
    ground (
      arith,
      drop-none buffer (len - len),
      write_pieces-PiecesSent fd v buffer len h (len + 1) len s,
    )
