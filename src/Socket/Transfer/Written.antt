-- ===== src/Socket/Transfer/Written.antt =====
-- What `write_data` (private_libary/linux_socket/socket_protocol.c) passes on and returns.
use itrace.Prelude.{
  ℕ, zero, suc, ◌+◌, ◌-◌, ◌≤◌, ◌≡◌, sym, List, [], ◌∷◌, ◌++◌, take, drop, arith, append_assoc,
  append-nil, take-add, Bool-cases, inl, inr, ltb,
}
use itrace.Posix.{Answer, Sink, write}
use itrace.Posix.Calls.{none_taken, some_taken, error, write-cases, write-le}
use itrace.General.{Sent}
use itrace.Socket.Transfer.{max_empty, write_data_loop, write_data}
use itrace.Socket.Transfer.Laws.{Judged}

-- What a call for `n` bytes has done, for any answers of the kernel: `taken` bytes of the part of the
-- buffer that was ahead have been passed on.
pub record IsWritten (n : ℕ) (ahead before : List ℕ) (r : Sent) : Type 0 where
  pub taken : ℕ
  pub moved : r.sink.accepted ≡ before ++ take taken ahead
  pub fits : taken ≤ n
  pub outcome : Judged n taken r.sink.answers r.ret

write_data_loop-IsWritten :
    (answers : List Answer) (left_len count : ℕ) (ahead accepted asked : List ℕ)
    → IsWritten left_len ahead accepted
        (write_data_loop left_len count ahead accepted asked answers)
unfolding write_data_loop
write_data_loop-IsWritten [] left_len count ahead accepted asked = record {
  taken = 0;
  moved = sym (append-nil accepted);
  fits = omega arith;
  outcome = ground arith;
}
write_data_loop-IsWritten (a ∷ r) zero count ahead accepted asked = record {
  taken = 0;
  moved = sym (append-nil accepted);
  fits = omega arith;
  outcome = ground arith;
}
write_data_loop-IsWritten (a ∷ r) (suc m) count ahead accepted asked =
    elim (write-cases (write a (suc m))) [
      | none_taken q ↦
          let ih = write_data_loop-IsWritten r (suc m) (count + 1) ahead accepted (suc m ∷ asked) in
          elim (Bool-cases (ltb max_empty (count + 1))) [
            | inl enough ↦ record {
              taken = 0;
              moved = ground (arith, append-nil accepted);
              fits = omega arith;
              outcome = ground arith;
            }
            | inr more ↦ record {
              taken = ih.taken;
              moved = ground (arith, ih.moved);
              fits = ih.fits;
              outcome = ground (arith, ih.outcome);
            }
          ]
      | some_taken k q ↦
          let le = write-le a (suc m) (suc k) q in
          let ih =
            write_data_loop-IsWritten r (suc m - suc k) 0 (drop (suc k) ahead)
              (accepted ++ take (suc k) ahead) (suc m ∷ asked) in
          record {
            taken = suc k + ih.taken;
            moved = ground (
              arith,
              ih.moved,
              append_assoc accepted (take (suc k) ahead) (take ih.taken (drop (suc k) ahead)),
              take-add (suc k) ih.taken ahead,
            );
            fits = omega (arith, ih.fits);
            outcome = ground (arith, ih.outcome);
          }
      | error x q ↦ record {
        taken = 0;
        moved = ground (arith, append-nil accepted);
        fits = omega arith;
        outcome = ground arith;
      }
    ]

-- For any answers of the kernel, `write_data` of `buf_len` bytes passes on a prefix of the buffer,
-- of at most `buf_len` bytes; it returns 1 only when all have been passed on, and otherwise -1,
-- with fewer passed on, or blocks when the kernel has given all its answers.
pub write_data-IsWritten :
    (s : Sink) (buffer : List ℕ) (buf_len : ℕ)
    → IsWritten buf_len buffer s.accepted (write_data s buffer buf_len)
unfolding write_data
write_data-IsWritten s buffer buf_len =
    write_data_loop-IsWritten s.answers buf_len 0 buffer s.accepted s.asked
