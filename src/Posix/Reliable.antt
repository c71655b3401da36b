-- ===== src/Posix/Reliable.antt =====
-- Answers of a kernel that makes progress: only the transient errors, and no empty transfer.
use itrace.Prelude.{ℕ, suc, List, [], ◌∷◌}
use itrace.Posix.{Answer, serve, nothing, refuse, eintr, eagain, esrch, other}

abbrev pub Reliable : List Answer → Type 0
Reliable [] = Unit
Reliable (serve k ∷ r) = Reliable r
Reliable (nothing ∷ r) = ⊥
Reliable (refuse eintr ∷ r) = Reliable r
Reliable (refuse eagain ∷ r) = Reliable r
Reliable (refuse esrch ∷ r) = ⊥
Reliable (refuse other ∷ r) = ⊥

-- How many of the answers move bytes.
abbrev pub serves : List Answer → ℕ
serves [] = 0
serves (serve k ∷ r) = suc (serves r)
serves (nothing ∷ r) = serves r
serves (refuse e ∷ r) = serves r
