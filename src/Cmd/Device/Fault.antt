-- ===== src/Cmd/Device/Fault.antt =====
-- `writen_to_cmd_status_dev` (cmd_status_trans/server.c) from an address that cannot be read.
use itrace.Prelude.{
  ℕ, suc, ◌≡◌, ◌≤◌, List, ◌∷◌, some, false, ℤ, pos, minus_one, is_neg, arith, Bool-cases, inl, inr,
  replicate,
}
use itrace.Posix.{Sink, refuse, other}
use itrace.Posix.Calls.{write-refuse}
use itrace.General.{writen, write_loop}
use itrace.General.Writen.{writen-negative}
use itrace.Cmd.Device.{piece, write_pieces, writen_to_cmd_status_dev}

writen-fault :
    (fd : ℤ) (s : Sink) (buffer : List ℕ) (n : ℕ)
    → is_neg fd ≡ false
    → s.answers ≡ replicate (suc n) (refuse other)
    → writen fd s buffer 1 ≡ record {
      ret = some minus_one;
      sink = record {
        accepted = s.accepted;
        asked = 1 ∷ s.asked;
        answers = replicate n (refuse other);
      };
    }
unfolding writen write_loop
writen-fault fd s buffer n v e = ground (arith, write-refuse other 1)

-- Where every `write` is refused for good, a byte is not passed on and the result is 0.
pub writen_to_cmd_status_dev-fault :
    (fd : ℤ) (s : Sink) (buffer : List ℕ) (n : ℕ)
    → s.answers ≡ replicate (suc n) (refuse other)
    → let r = writen_to_cmd_status_dev fd s buffer 1 in
      (r.ret ≡ some (pos 0))
      × (r.sink.accepted ≡ s.accepted)
      × (k : ℕ) × (n ≤ k)
      × (r.sink.answers ≡ replicate k (refuse other))
unfolding writen_to_cmd_status_dev write_pieces piece
writen_to_cmd_status_dev-fault fd s buffer n e = elim (Bool-cases (is_neg fd)) [
  | inl v ↦
      let q = writen-negative fd s buffer 1 v in
      (ground (arith, q), ground (arith, q), suc n, omega arith, ground (arith, q))
  | inr v ↦
      let q = writen-fault fd s buffer n v e in
      (ground (arith, q), ground (arith, q), n, omega arith, ground (arith, q))
]
