-- ===== src/Socket/Transfer/Patience.antt =====
-- How long `read_data` and `write_data` (private_libary/linux_socket/socket_protocol.c) wait: ten
-- empty transfers in a row are put up with, the eleventh ends the call.
use itrace.Prelude.{
  ℕ, zero, suc, ◌+◌, ◌-◌, ◌≤◌, ◌<◌, ◌≡◌, refl, List, [], ◌∷◌, ◌++◌, some, length, take, drop, pos,
  minus_one, arith, append_assoc, append-nil, take-add, replicate, min, length-take, length-drop,
  take-resume,
}
use itrace.Posix.{Answer, serve, nothing, refuse, Source, Sink}
use itrace.Posix.Reliable.{serves}
use itrace.Posix.Calls.{read-serve_cons, read-nothing, write-serve, write-nothing}
use itrace.Socket.Transfer.{max_empty, read_data_loop, read_data, write_data_loop, write_data}

-- No call is refused, and no more than `max_empty` empty transfers follow one another; `count`
-- have just passed.
abbrev pub Patient : (count : ℕ) → List Answer → Type 0
Patient count [] = Unit
Patient count (serve k ∷ r) = Patient 0 r
Patient count (nothing ∷ r) = (count + 1 ≤ max_empty) × Patient (count + 1) r
Patient count (refuse e ∷ r) = ⊥

read_data_loop-Patient :
    (answers : List Answer) (left_len count : ℕ) (stored pending : List ℕ)
    → Patient count answers
    → left_len ≤ length pending
    → left_len ≤ serves answers
    → let r = read_data_loop left_len count stored pending answers in
      (r.ret ≡ some (pos 1))
      × (r.stored ≡ stored ++ take left_len pending)
      × (r.left.pending ≡ drop left_len pending)
unfolding read_data_loop
read_data_loop-Patient [] zero count stored pending p le sv = ground (arith, append-nil stored)
read_data_loop-Patient [] (suc m) count stored pending p le sv = absurd (omega arith)
read_data_loop-Patient (a ∷ r) zero count stored pending p le sv = ground (arith, append-nil stored)
read_data_loop-Patient (serve k ∷ r) (suc m) count stored [] p le sv = absurd (omega arith)
read_data_loop-Patient (serve k ∷ r) (suc m) count stored (x ∷ xs) p le sv =
    let bs = take (min k m) xs in
    let q = suc m - suc (length bs) in
    ground (
      arith,
      read-serve_cons k m x xs,
      take-resume k m q xs,
      length-take (min k m) xs,
      length-drop (length bs) xs,
      append_assoc stored (x ∷ bs) (take q (drop (length bs) xs)),
      read_data_loop-Patient r q 0 (stored ++ x ∷ bs) (drop (length bs) xs),
    )
read_data_loop-Patient (nothing ∷ r) (suc m) count stored pending p le sv = ground (
  arith,
  read-nothing (suc m) pending,
  read_data_loop-Patient r (suc m) (count + 1) stored pending,
)
read_data_loop-Patient (refuse e ∷ r) (suc m) count stored pending p le sv = absurd p

-- If the kernel refuses no call, leaves no more than ten empty transfers between others and has
-- `n` bytes, `read_data` returns 1 and has stored exactly the next `n` bytes.
pub read_data-Patient :
    (s : Source) (n : ℕ)
    → Patient 0 s.answers
    → n ≤ length s.pending
    → n ≤ serves s.answers
    → let r = read_data s n in
      (r.ret ≡ some (pos 1)) × (r.stored ≡ take n s.pending) × (r.left.pending ≡ drop n s.pending)
unfolding read_data
read_data-Patient s n p le sv = read_data_loop-Patient s.answers n 0 [] s.pending p le sv

read_data_loop-gives_up :
    (k count left_len : ℕ) (stored pending : List ℕ) (more : List Answer)
    → count + k ≡ max_empty
    → 0 < left_len
    → read_data_loop left_len count stored pending (nothing ∷ replicate k nothing ++ more)
      ≡ record {
        ret = some minus_one;
        stored = stored;
        left = record { pending = pending; answers = more };
      }
unfolding read_data_loop
read_data_loop-gives_up zero count left_len stored pending more e pos_left =
    ground (arith, read-nothing left_len pending)
read_data_loop-gives_up (suc k) count left_len stored pending more e pos_left = ground (
  arith,
  read-nothing left_len pending,
  read_data_loop-gives_up k (count + 1) left_len stored pending more,
)

-- After eleven empty transfers at its start, `read_data` of at least one byte gives up: it returns
-- -1, stores nothing, and leaves the later answers of the kernel untouched.
read_data-gives_up :
    (pending : List ℕ) (more : List Answer) (n : ℕ)
    → 0 < n
    → read_data
        (record { pending = pending; answers = replicate (suc max_empty) nothing ++ more })
        n
      ≡ record {
        ret = some minus_one;
        stored = [];
        left = record { pending = pending; answers = more };
      }
unfolding read_data
read_data-gives_up pending more n h = read_data_loop-gives_up max_empty 0 n [] pending more refl h

write_data_loop-Patient :
    (answers : List Answer) (left_len count : ℕ) (ahead accepted asked : List ℕ)
    → Patient count answers
    → left_len ≤ serves answers
    → let r = write_data_loop left_len count ahead accepted asked answers in
      (r.ret ≡ some (pos 1)) × (r.sink.accepted ≡ accepted ++ take left_len ahead)
unfolding write_data_loop
write_data_loop-Patient [] zero count ahead accepted asked p sv =
    ground (arith, append-nil accepted)
write_data_loop-Patient [] (suc m) count ahead accepted asked p sv = absurd (omega arith)
write_data_loop-Patient (a ∷ r) zero count ahead accepted asked p sv =
    ground (arith, append-nil accepted)
write_data_loop-Patient (serve k ∷ r) (suc m) count ahead accepted asked p sv =
    let j = suc (min k m) in
    let q = suc m - j in
    ground (
      arith,
      write-serve k m,
      take-add j q ahead,
      append_assoc accepted (take j ahead) (take q (drop j ahead)),
      write_data_loop-Patient r q 0 (drop j ahead) (accepted ++ take j ahead) (suc m ∷ asked),
    )
write_data_loop-Patient (nothing ∷ r) (suc m) count ahead accepted asked p sv = ground (
  arith,
  write-nothing (suc m),
  write_data_loop-Patient r (suc m) (count + 1) ahead accepted (suc m ∷ asked),
)
write_data_loop-Patient (refuse e ∷ r) (suc m) count ahead accepted asked p sv = absurd p

-- If the kernel refuses no call and leaves no more than ten empty transfers between others,
-- `write_data` returns 1 and has passed on exactly the first `buf_len` bytes of the buffer.
pub write_data-Patient :
    (s : Sink) (buffer : List ℕ) (buf_len : ℕ)
    → Patient 0 s.answers
    → buf_len ≤ serves s.answers
    → let r = write_data s buffer buf_len in
      (r.ret ≡ some (pos 1)) × (r.sink.accepted ≡ s.accepted ++ take buf_len buffer)
unfolding write_data
write_data-Patient s buffer n p sv =
    write_data_loop-Patient s.answers n 0 buffer s.accepted s.asked p sv
