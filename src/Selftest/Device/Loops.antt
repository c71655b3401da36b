-- ===== src/Selftest/Device/Loops.antt =====
-- The sums of `cmd_and_status_channel_loop_write` and `cmd_and_status_channel_loop_read`
-- (cmd_status_trans/test.c).
use itrace.Prelude.{
  ℕ, zero, suc, ◌+◌, ◌*◌, ◌≤◌, ◌≡◌, refl, sym, ap, List, [], ◌∷◌, ◌++◌, append_assoc, append-nil,
  Option, none, some, true, false, if◌then◌else◌, take, length, length-append, length-take, ℤ, pos,
  negsuc, is_neg, ◌==ℤ◌, arith,
}
use itrace.Posix.{Answer, Source, Sink}
use itrace.General.{Sent}
use itrace.Cmd.Device.{writen_to_cmd_status_dev}
use itrace.Cmd.Device.Laws.{Counted, IsMoved, writen_to_cmd_status_dev-IsMoved}
use itrace.Selftest.Device.{
  loop_write, cmd_and_status_channel_loop_write, read_pieces, sum_lengths,
  cmd_and_status_channel_loop_read,
}
use itrace.Selftest.Device.Counts.{concat, read_pieces-concat}

-- The sum `t`, from `sum`, of `count` rounds that have passed on `n` bytes.
abbrev Balanced : (count sum n : ℕ) → List Answer → Option ℕ → Type 0
Balanced count sum n answers none = answers ≡ []
Balanced count sum n answers (some t) = (t ≤ sum + 1024 * count) × (sum + 1024 * count ≤ n + t)

record IsLooped (count sum : ℕ) (s : Sink) (r : Option ℕ × Sink) : Type 0 where
  pub sent : List ℕ
  pub moved : r.1.accepted ≡ s.accepted ++ sent
  pub outcome : Balanced count sum (length sent) r.1.answers r.0

round-Balanced :
    (count sum taken k n : ℕ) (before after : List Answer) (ret : ℤ) (o : Option ℕ)
    → Counted taken before (some ret)
    → n ≡ taken + k
    → Balanced count (if ret ==ℤ pos 1024 then sum else sum + 1024) k after o
    → Balanced (suc count) sum n after o
round-Balanced count sum taken k n before after ret none c e b = b
round-Balanced count sum taken k n before after (pos j) (some t) c e b = ground arith
round-Balanced count sum taken k n before after (negsuc j) (some t) c e b = absurd c

-- One round, by what its transfer returns.
after_round :
    (count sum : ℕ) (s : Sink) (fd : ℤ) (buffer : List ℕ)
    → length buffer ≡ 1024
    → (r : Sent) → IsMoved 1024 buffer s r
    → ((sum' : ℕ) → IsLooped count sum' r.sink (loop_write count sum' fd buffer r.sink))
    → IsLooped (suc count) sum s (elim r.ret [
      | none ↦ (none, r.sink)
      | some ret ↦ loop_write count (if ret ==ℤ pos 1024 then sum else sum + 1024) fd buffer r.sink
    ])
after_round count sum s fd buffer len r m rec = go r.ret m.outcome
  where
    go :
        (ret : Option ℤ)
        → Counted m.taken r.sink.answers ret
        → IsLooped (suc count) sum s (elim ret [
          | none ↦ (none, r.sink)
          | some ret ↦
              loop_write count (if ret ==ℤ pos 1024 then sum else sum + 1024) fd buffer r.sink
        ])
    go none c = record { sent = take m.taken buffer; moved = m.moved; outcome = c }
    go (some ret) c =
        let sum' = if ret ==ℤ pos 1024 then sum else sum + 1024 in
        let q = loop_write count sum' fd buffer r.sink in
        let more = rec sum' in
        record {
          sent = take m.taken buffer ++ more.sent;
          moved =
              ground (
                arith,
                m.moved,
                more.moved,
                append_assoc s.accepted (take m.taken buffer) more.sent,
              );
          outcome =
              round-Balanced count sum m.taken (length more.sent)
                (length (take m.taken buffer ++ more.sent)) r.sink.answers q.1.answers ret q.0 c
                (ground (
                  arith,
                  length-append (take m.taken buffer) more.sent,
                  length-take m.taken buffer,
                  len,
                  m.fits,
                ))
                more.outcome;
        }

loop_write-IsLooped :
    (count sum : ℕ) (fd : ℤ) (buffer : List ℕ) (s : Sink)
    → is_neg fd ≡ false
    → length buffer ≡ 1024
    → IsLooped count sum s (loop_write count sum fd buffer s)
unfolding loop_write
loop_write-IsLooped zero sum fd buffer s v len = record {
  sent = [];
  moved = sym (append-nil s.accepted);
  outcome = omega arith;
}
loop_write-IsLooped (suc count) sum fd buffer s v len =
    let r = writen_to_cmd_status_dev fd s buffer 1024 in
    after_round count sum s fd buffer len r
      (writen_to_cmd_status_dev-IsMoved fd s buffer 1024 v (omega arith))
      (λ sum'. loop_write-IsLooped count sum' fd buffer r.sink v len)

-- For any answers of the kernel, `cmd_and_status_channel_loop_write` of 1024 bytes to an open device either
-- blocks, when the kernel has given all its answers, or comes to its end with a sum of at most 102400, and
-- the sum and the number of the bytes that it has passed on are together at least 102400: what its sum
-- counts is not what was sent but what was not.
cmd_and_status_channel_loop_write-IsLooped :
    (n : ℕ) (buffer : List ℕ) (s : Sink)
    → length buffer ≡ 1024
    → IsLooped 100 0 s (cmd_and_status_channel_loop_write (pos (suc n)) buffer s)
unfolding cmd_and_status_channel_loop_write
cmd_and_status_channel_loop_write-IsLooped n buffer s len =
    loop_write-IsLooped 100 0 (pos (suc n)) buffer s refl len

sum_lengths-concat : (pieces : List (List ℕ)) → sum_lengths pieces ≡ length (concat pieces)
sum_lengths-concat [] = refl
sum_lengths-concat (xs ∷ pieces) =
    omega (arith, length-append xs (concat pieces), sum_lengths-concat pieces)

-- With memory, `cmd_and_status_channel_loop_read` has read a first part of the stream when it stands, and its sum is
-- the length of that part.
cmd_and_status_channel_loop_read-sum :
    (s : Source)
    → (got : List ℕ) × (got ++ (cmd_and_status_channel_loop_read true s).1.pending ≡ s.pending)
      × ((cmd_and_status_channel_loop_read true s).0 ≡ some (length got))
unfolding cmd_and_status_channel_loop_read
cmd_and_status_channel_loop_read-sum s =
    let r = read_pieces 0x1000 s.pending s.answers in
    (
      concat r.pieces,
      read_pieces-concat 0x1000 s.answers s.pending,
      ap some (sum_lengths-concat r.pieces),
    )
