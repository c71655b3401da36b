-- ===== src/Selftest/Device/Stdin.antt =====
-- Which descriptor `cmd_status_trans_rw_test` (cmd_status_trans/test.c) works on.
use itrace.Prelude.{
  ℕ, zero, suc, ◌≡◌, refl, ap, ◌++◌, Option, none, some, Bool, true, false, if◌then◌else◌, length,
  ℤ, pos, negsuc, ◌==ℤ◌, arith,
}
use itrace.Posix.{Source, Sink}
use itrace.Cmd.Device.{writen_to_cmd_status_dev}
use itrace.Cmd.Device.Laws.{IsMoved, writen_to_cmd_status_dev-IsMoved}
use itrace.Cmd.Setup.{open_cmd_status_device}
use itrace.Selftest.{read_test}
use itrace.Selftest.Device.{
  read_pieces, Tested, exited, writing, no_memory, tested, Files, set_at, write_cmd, opened_as,
  read_status_pieces, cmd_status_trans_rw_test,
}
use itrace.Selftest.Device.Counts.{concat, read_pieces-concat}

abbrev is_exited : Tested → Bool
is_exited exited = true
is_exited writing = false
is_exited no_memory = false
is_exited (tested n over) = false

kept {ℓ} : {A : Type ℓ} (a b : A) (t : Bool) → t ≡ false → (if t then a else b) ≡ b
kept a b t e = ap (λ u. if u then a else b) e

-- The descriptor 0 behind the `write` of the command, by what that has returned: the `write` blocks, there
-- is no memory, or the test has read from 0 until a `read` failed or blocked, and has counted that.
abbrev pub After : (allocated : Bool) → (junk : ℕ) → Source → Option ℤ → Tested → Source → Type 0
After allocated junk s none t left = (t ≡ writing) × (left ≡ s)
After false junk s (some ret) t left = (t ≡ no_memory) × (left ≡ s)
After true junk s (some ret) t left =
    let r = read_pieces 0x1000 s.pending s.answers in
    (t ≡ tested (read_test junk r.pieces) r.is_over)
    × (left ≡ r.left)
    × (concat r.pieces ++ left.pending ≡ s.pending)

-- The command has been written to descriptor 0, and the rest done there.
abbrev OnStdin : (allocated : Bool) → (junk : ℕ) → Files → Tested × Files → Type 0
OnStdin allocated junk w r =
    let sent = writen_to_cmd_status_dev (pos 0) (w.sink (pos 0)) write_cmd (length write_cmd) in
    (r.1.sink (pos 0) ≡ sent.sink)
    × IsMoved (length write_cmd) write_cmd (w.sink (pos 0)) sent
    × After allocated junk (w.source (pos 0)) sent.ret r.0 (r.1.source (pos 0))

abbrev pub Misdirected :
    (opened : ℤ) → (allocated : Bool) → (junk : ℕ) → (fd : ℤ) → Files → Tested × Files → Type 0
Misdirected (pos (suc n)) allocated junk fd w r =
    (is_exited r.0 ≡ false)
    × (r.1.source fd ≡ w.source fd)
    × (r.1.sink fd ≡ w.sink fd)
    × OnStdin allocated junk w r
Misdirected _ allocated junk fd w r = r ≡ (exited, w)

-- What follows on the `write`, which has left descriptor 0 at `k`.
written-After :
    (ret : Option ℤ) (allocated : Bool) (junk : ℕ) (w : Files) (k : Sink) (fd : ℤ)
    → (fd ==ℤ pos 0) ≡ false
    → let w' : Files = record w { sink = set_at w.sink (pos 0) k } in
      let r : Tested × Files = elim ret [
        | none ↦ (writing, w')
        | some x ↦ if allocated then read_status_pieces (pos 0) junk w' else (no_memory, w')
      ] in
      (is_exited r.0 ≡ false)
      × (r.1.source fd ≡ w.source fd)
      × (r.1.sink fd ≡ w.sink fd)
      × (r.1.sink (pos 0) ≡ k)
      × After allocated junk (w.source (pos 0)) ret r.0 (r.1.source (pos 0))
unfolding read_status_pieces
written-After none allocated junk w k fd h =
    (refl, refl, kept k (w.sink fd) _ h, refl, (refl, refl))
written-After (some ret) false junk w k fd h =
    (refl, refl, kept k (w.sink fd) _ h, refl, (refl, refl))
written-After (some ret) true junk w k fd h =
    let s = w.source (pos 0) in
    let r = read_pieces 0x1000 s.pending s.answers in
    (
      refl,
      kept r.left (w.source fd) _ h,
      kept k (w.sink fd) _ h,
      refl,
      (refl, refl, read_pieces-concat 0x1000 s.answers s.pending),
    )

-- Whatever `open` gives, `cmd_status_trans_rw_test` leaves every descriptor but 0 as it was, that of the device
-- included. It leaves by `exit`, with nothing done, exactly when the device could not be opened; otherwise
-- `writen_to_cmd_status_dev` hands its command to descriptor 0, and unless that blocks or there is no memory,
-- the test reads from descriptor 0 until a `read` fails or blocks, and counts what it has read there.
pub cmd_status_trans_rw_test-stdin :
    (opened : ℤ) (allocated : Bool) (junk : ℕ) (w : Files) (fd : ℤ)
    → (fd ==ℤ pos 0) ≡ false
    → Misdirected opened allocated junk fd w (cmd_status_trans_rw_test opened allocated junk w)
unfolding cmd_status_trans_rw_test opened_as read_status_pieces open_cmd_status_device
cmd_status_trans_rw_test-stdin (pos zero) allocated junk w fd h = refl
cmd_status_trans_rw_test-stdin (negsuc n) allocated junk w fd h = refl
cmd_status_trans_rw_test-stdin (pos (suc n)) allocated junk w fd h =
    let s = w.sink (pos 0) in
    let sent = writen_to_cmd_status_dev (pos 0) s write_cmd (length write_cmd) in
    let v = written-After sent.ret allocated junk w sent.sink fd h in
    let moved =
      writen_to_cmd_status_dev-IsMoved (pos 0) s write_cmd (length write_cmd) refl (omega arith) in
    (v.0, v.1, v.2, (v.3, moved, v.4))
