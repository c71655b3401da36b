-- ===== src/Socket/Transfer/Onward.antt =====
-- What a transfer over a patient kernel (`read_data` and `write_data` of
-- private_libary/linux_socket/socket_protocol.c) leaves to the next one.
use itrace.Prelude.{
  ℕ, zero, suc, ◌+◌, ◌-◌, ◌≤◌, ◌≡◌, ap, ◌∙◌, List, [], ◌∷◌, ◌++◌, some, pos, length, take, drop,
  min, arith, length-take, length-drop, length-append, take-append_left, drop-append_left,
  take_of_le,
}
use itrace.Posix.{Answer, serve, nothing, refuse, Source, Sink}
use itrace.Posix.Reliable.{serves}
use itrace.Posix.Calls.{read-serve_cons, read-nothing, write-serve, write-nothing}
use itrace.General.{Received, Sent}
use itrace.Socket.Transfer.{read_data_loop, read_data, write_data_loop, write_data}
use itrace.Socket.Transfer.Patience.{Patient, read_data-Patient, write_data-Patient}

Patient-mono : (l : List Answer) (b c : ℕ) → b ≤ c → Patient c l → Patient b l
Patient-mono [] b c le p = tt
Patient-mono (serve k ∷ l) b c le p = p
Patient-mono (nothing ∷ l) b c le p =
    (omega (arith, p.0), Patient-mono l (b + 1) (c + 1) (omega arith) p.1)
Patient-mono (refuse e ∷ l) b c le p = p

-- The kernel stays patient, and each byte has cost one transfer at most.
abbrev pub Onward : (n : ℕ) (before after : List Answer) → Type 0
Onward n before after = Patient 0 after × (serves before ≤ n + serves after)

read_data_loop-Onward :
    (answers : List Answer) (left_len count : ℕ) (stored pending : List ℕ)
    → Patient count answers
    → left_len ≤ length pending
    → left_len ≤ serves answers
    → Onward left_len answers (read_data_loop left_len count stored pending answers).left.answers
unfolding read_data_loop
read_data_loop-Onward [] n count stored pending p le sv = ground arith
read_data_loop-Onward (a ∷ r) zero count stored pending p le sv =
    (Patient-mono (a ∷ r) 0 count (omega arith) p, omega arith)
read_data_loop-Onward (serve k ∷ r) (suc m) count stored [] p le sv = absurd (omega arith)
read_data_loop-Onward (serve k ∷ r) (suc m) count stored (x ∷ xs) p le sv =
    let bs = take (min k m) xs in
    ground (
      arith,
      read-serve_cons k m x xs,
      length-take (min k m) xs,
      length-drop (length bs) xs,
      read_data_loop-Onward r (suc m - suc (length bs)) 0 (stored ++ x ∷ bs) (drop (length bs) xs),
    )
read_data_loop-Onward (nothing ∷ r) (suc m) count stored pending p le sv = ground (
  arith,
  read-nothing (suc m) pending,
  read_data_loop-Onward r (suc m) (count + 1) stored pending,
)
read_data_loop-Onward (refuse e ∷ r) (suc m) count stored pending p le sv = absurd p

pub read_data-Onward :
    (s : Source) (n : ℕ)
    → Patient 0 s.answers
    → n ≤ length s.pending
    → n ≤ serves s.answers
    → Onward n s.answers (read_data s n).left.answers
unfolding read_data
read_data-Onward s n p le sv = read_data_loop-Onward s.answers n 0 [] s.pending p le sv

-- A piece that comes first is read whole.
pub record FirstRead (piece rest : List ℕ) (s : Source) (r : Received) : Type 0 where
  pub stored : r.stored ≡ piece
  pub pending : r.left.pending ≡ rest
  pub patient : Patient 0 r.left.answers
  pub cost : serves s.answers ≤ length piece + serves r.left.answers

pub read_data-FirstRead :
    (piece rest : List ℕ) (s : Source)
    → s.pending ≡ piece ++ rest
    → Patient 0 s.answers
    → length piece ≤ serves s.answers
    → FirstRead piece rest s (read_data s (length piece))
read_data-FirstRead piece rest s e p sv =
    let n = length piece in
    let long = ap length e ∙ length-append piece rest in
    let v = read_data-Patient s n p (omega (arith, long)) sv in
    let w = read_data-Onward s n p (omega (arith, long)) sv in
    record {
      stored = v.1 ∙ ap (λ t. take n t) e ∙ take-append_left piece rest;
      pending = v.2 ∙ ap (λ t. drop n t) e ∙ drop-append_left piece rest;
      patient = w.0;
      cost = w.1;
    }

-- A buffer written whole, and what is left to the next call.
pub record AllWritten (buffer : List ℕ) (s : Sink) (r : Sent) : Type 0 where
  pub ret : r.ret ≡ some (pos 1)
  pub accepted : r.sink.accepted ≡ s.accepted ++ buffer
  pub patient : Patient 0 r.sink.answers
  pub cost : serves s.answers ≤ length buffer + serves r.sink.answers

write_data_loop-Onward :
    (answers : List Answer) (left_len count : ℕ) (ahead accepted asked : List ℕ)
    → Patient count answers
    → left_len ≤ serves answers
    → Onward left_len answers
        (write_data_loop left_len count ahead accepted asked answers).sink.answers
unfolding write_data_loop
write_data_loop-Onward [] n count ahead accepted asked p sv = ground arith
write_data_loop-Onward (a ∷ r) zero count ahead accepted asked p sv =
    (Patient-mono (a ∷ r) 0 count (omega arith) p, omega arith)
write_data_loop-Onward (serve k ∷ r) (suc m) count ahead accepted asked p sv =
    let j = suc (min k m) in
    ground (
      arith,
      write-serve k m,
      write_data_loop-Onward r (suc m - j) 0 (drop j ahead) (accepted ++ take j ahead)
          (suc m ∷ asked),
    )
write_data_loop-Onward (nothing ∷ r) (suc m) count ahead accepted asked p sv = ground (
  arith,
  write-nothing (suc m),
  write_data_loop-Onward r (suc m) (count + 1) ahead accepted (suc m ∷ asked),
)
write_data_loop-Onward (refuse e ∷ r) (suc m) count ahead accepted asked p sv = absurd p

write_data-Onward :
    (s : Sink) (buffer : List ℕ) (buf_len : ℕ)
    → Patient 0 s.answers
    → buf_len ≤ serves s.answers
    → Onward buf_len s.answers (write_data s buffer buf_len).sink.answers
unfolding write_data
write_data-Onward s buffer n p sv =
    write_data_loop-Onward s.answers n 0 buffer s.accepted s.asked p sv

pub write_data-AllWritten :
    (s : Sink) (buffer : List ℕ) (n : ℕ)
    → length buffer ≡ n
    → Patient 0 s.answers
    → n ≤ serves s.answers
    → AllWritten buffer s (write_data s buffer n)
write_data-AllWritten s buffer n e p sv =
    let v = write_data-Patient s buffer n p sv in
    let w = write_data-Onward s buffer n p sv in
    record {
      ret = v.0;
      accepted = v.1 ∙ ap (λ t. s.accepted ++ t) (take_of_le n buffer (omega arith));
      patient = w.0;
      cost = omega (arith, w.1);
    }
