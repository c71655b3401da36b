-- ===== src/Acq/Setup/Indices.antt =====
-- acq_data_trans/server.c, "init pipe": what is known when the two indices have been written.
use itrace.Prelude.{
  ◌≡◌, refl, ap, ◌∙◌, ◌⊎◌, inl, inr, [], ◌∷◌, ◌++◌, Option, none, some, false, ℤ, pos, negsuc, ℕ,
  is_neg, ◌==ℤ◌, take, arith, Bool-cases,
}
use itrace.Posix.{Sink}
use itrace.General.{Sent, writen}
use itrace.General.Writen.{Returned, writen-IsPassed, writen-negative}

-- What is known of the indices when `writen` has given its result.
abbrev pub IndexView : (before : Sink) → Sink → Option ℤ → Type 0
IndexView before after none = after.answers ≡ []
IndexView before after (some ret) =
    ((ret ==ℤ pos 2) ≡ false) ⊎ (after.accepted ≡ before.accepted ++ 0 ∷ 1 ∷ [])

passed-View :
    (s : Sink) (taken : ℕ) (r : Sent)
    → r.sink.accepted ≡ s.accepted ++ take taken (0 ∷ 1 ∷ [])
    → (ret : Option ℤ) → Returned 2 taken r.sink.answers ret
    → IndexView s r.sink ret
passed-View s taken r m none o = o.0
passed-View s taken r m (some (pos j)) o = inr (m ∙ ap (λ k. s.accepted ++ take k (0 ∷ 1 ∷ [])) o.1)
passed-View s taken r m (some (negsuc j)) o = inl refl

pub indices-View :
    (fd : ℤ) (s : Sink)
    → IndexView s (writen fd s (0 ∷ 1 ∷ []) 2).sink (writen fd s (0 ∷ 1 ∷ []) 2).ret
indices-View fd s = elim (Bool-cases (is_neg fd)) [
  | inl n ↦ rw (writen-negative fd s (0 ∷ 1 ∷ []) 2 n) (inl refl)
  | inr v ↦
      let p = writen-IsPassed fd s (0 ∷ 1 ∷ []) 2 v (omega arith) in
      passed-View s p.taken (writen fd s (0 ∷ 1 ∷ []) 2) p.moved (writen fd s (0 ∷ 1 ∷ []) 2).ret
        p.outcome
]
