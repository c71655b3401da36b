-- ===== src/General/Tests.antt =====
-- Runs of `readn` and `writen` (general/general.c), and their theorems at concrete inputs.
use itrace.Prelude.{ℕ, ◌≡◌, refl, [], ◌∷◌, some, pos, minus_one, arith}
use itrace.Posix.{Source, Sink, serve, refuse, eintr, eagain, esrch, other, read, write}
use itrace.General.{readn, writen, is_process_alive, kill_failed}
use itrace.General.Readn.{IsReceipt, readn-IsReceipt, IsFull, readn-IsFull}
use itrace.General.Writen.{IsPassed, writen-IsPassed, IsSent, writen-IsSent}

-- Five bytes that arrive in pieces, with an interruption.
abbrev pieces : Source
pieces = record {
  pending = 1 ∷ 2 ∷ 3 ∷ 4 ∷ 5 ∷ [];
  answers = serve 1 ∷ refuse eintr ∷ serve 0 ∷ serve 9 ∷ serve 0 ∷ serve 0 ∷ serve 0 ∷ [];
}

abbrev broken : Source
broken = record { pending = 1 ∷ 2 ∷ 3 ∷ []; answers = serve 1 ∷ refuse other ∷ [] }

abbrev room : Sink
room = record {
  accepted = 9 ∷ [];
  asked = [];
  answers = serve 0 ∷ refuse eagain ∷ serve 5 ∷ serve 5 ∷ [];
}

readn-pieces : (readn pieces 4).ret ≡ some (pos 4)
unfolding readn read
readn-pieces = refl

readn_end : ((readn pieces 8).ret ≡ some (pos 5)) × ((readn broken 3).ret ≡ some minus_one)
unfolding readn read
readn_end = (refl, refl)

writen-room :
    ((writen (pos 4) room (1 ∷ 2 ∷ 3 ∷ []) 3).sink.accepted ≡ 9 ∷ 1 ∷ 2 ∷ 3 ∷ [])
    × ((writen minus_one room (1 ∷ []) 1).ret ≡ some (pos 0))
unfolding writen write
writen-room = (refl, refl)

dead_process : ◌≡◌ {A = ℕ} (is_process_alive (kill_failed esrch)) 0
unfolding is_process_alive
dead_process = refl

readn-IsReceipt_example : IsReceipt 3 (1 ∷ 2 ∷ 3 ∷ []) (readn broken 3)
readn-IsReceipt_example = readn-IsReceipt broken 3 (omega arith)

readn-IsFull_example : IsFull 4 (1 ∷ 2 ∷ 3 ∷ 4 ∷ 5 ∷ []) (readn pieces 4)
readn-IsFull_example = readn-IsFull pieces 4 (omega arith) tt (omega arith)

writen-IsPassed_example : IsPassed 3 (1 ∷ 2 ∷ 3 ∷ []) room (writen (pos 4) room (1 ∷ 2 ∷ 3 ∷ []) 3)
writen-IsPassed_example = writen-IsPassed (pos 4) room (1 ∷ 2 ∷ 3 ∷ []) 3 refl (omega arith)

writen-IsSent_example : IsSent 3 (1 ∷ 2 ∷ 3 ∷ []) room (writen (pos 4) room (1 ∷ 2 ∷ 3 ∷ []) 3)
writen-IsSent_example =
    writen-IsSent (pos 4) room (1 ∷ 2 ∷ 3 ∷ []) 3 refl (omega arith) tt (omega arith)
