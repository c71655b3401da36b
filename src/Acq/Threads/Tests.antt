-- ===== src/Acq/Threads/Tests.antt =====
-- A run of the two threads (acq_data_trans/server.c), and the theorems on it.
use itrace.Prelude.{ℕ, ◌<◌, ◌≡◌, ◌≢◌, refl, List, [], ◌∷◌, ◌++◌, arith}
use itrace.Acq.Threads.{
  System, Work, Step, Reach, init, start, next, work, fault, read_on, read_take, read_fill,
  read_pass, send_on, send_take, send_data, send_pass, send_data_fails,
}
use itrace.Acq.Threads.Stream.{Move, channel, Step-Move}
use itrace.Acq.Threads.Safety.{no_race, sent-prefix, no_deadlock}

record Run : Type 0 where
  last : System
  reach : Reach last

abbrev after : (r : Run) {t : System} → Step r.last t → Run
after r {t} st = record { last = t; reach = next r.reach st }

abbrev started : Run
started = record { last = init; reach = start }

-- The reader has filled buffer 0 with three bytes and passed it on.
abbrev filled_0 : Run
filled_0 =
    after
      (after (after (after started (work (read_on refl refl))) (work (read_take {i = 0} refl refl)))
        (work (read_fill {i = 0} (7 ∷ 8 ∷ 9 ∷ []) refl (omega arith))))
      (work (read_pass {i = 0} refl))

-- Both threads have taken a buffer.
abbrev both_busy : Run
both_busy =
    after
      (after
        (after (after filled_0 (work (read_on refl refl))) (work (read_take {i = 1} refl refl)))
        (work (send_on refl refl)))
      (work (send_take {i = 0} refl refl))

-- The sender has sent buffer 0 and given it back.
abbrev sent_0 : Run
sent_0 =
    after (after both_busy (work (send_data {i = 0} {n = 2} refl refl)))
      (work (send_pass {i = 0} refl))

-- The client is lost after one byte.
abbrev client_lost : Run
client_lost = after both_busy (fault (send_data_fails {i = 0} {n = 2} 1 refl refl (omega arith)))

no_race_example : (◌≢◌ {A = ℕ} 1 0) × (1 < 2) × (0 < 2)
no_race_example = no_race both_busy.reach refl refl

sent-prefix_example : (rest : List ℕ) × (7 ∷ [] ++ rest ≡ 7 ∷ 8 ∷ 9 ∷ [])
sent-prefix_example = sent-prefix client_lost.reach

no_deadlock_example : (t : System) × Work init t
no_deadlock_example = no_deadlock start refl refl

Step-Move_example :
    Move (channel both_busy.last) (record { arrived = 7 ∷ 8 ∷ 9 ∷ []; delivered = 7 ∷ [] })
Step-Move_example =
    Step-Move both_busy.reach (fault (send_data_fails {i = 0} {n = 2} 1 refl refl (omega arith)))
