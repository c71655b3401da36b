-- ===== src/Cmd/Child/Runs.antt =====
-- Turns of one of the threads of a command child (cmd_status_trans/server.c), one behind the other.
use itrace.Prelude.{ℕ, zero, suc, ◌+◌, ◌≡◌, subst, ap, ◌∙◌, ℤ, replicate, arith}
use itrace.Cmd.Child.{Child, Event, turn, run}

pub run-more :
    (dev_fd : ℤ) (who : Event) (m n : ℕ) (c d e : Child)
    → run dev_fd (replicate m who) c ≡ d
    → run dev_fd (replicate n who) d ≡ e
    → run dev_fd (replicate (m + n) who) c ≡ e
unfolding run
run-more dev_fd who zero n c d e p q =
    let same : n ≡ 0 + n = omega arith in
    subst (λ k. run dev_fd (replicate k who) c ≡ e) same (ap (run dev_fd (replicate n who)) p ∙ q)
run-more dev_fd who (suc m) n c d e p q =
    let same : suc (m + n) ≡ suc m + n = omega arith in
    subst (λ k. run dev_fd (replicate k who) c ≡ e) same
      (run-more dev_fd who m n (turn dev_fd who c) d e p q)
