-- ===== src/Thread/Demo/Places.antt =====
-- How far a thread of private_libary/linux_thread/main.c is from its end, and what it has printed there.
use itrace.Prelude.{
  ℕ, zero, suc, ◌+◌, ◌*◌, ◌-◌, ◌≡◌, refl, ap, List, [], ◌∷◌, Bool, true, false, arith, subst,
}
use itrace.Thread.Demo.Counting.{counted, Printed}
use itrace.Thread.Demo.{
  Place, absent, testing, at_reset, asleep, at_last_reset, at_stop, ended, out_info_per_sec, Demo,
  Who, first, second, main, turn, run, counter,
}

-- The turns that a thread has to its end.
abbrev pub rank : Place → ℕ
rank absent = 0
rank (testing m) = 4 * m + 2
rank (at_reset m) = 4 * m + 5
rank (asleep m) = 4 * m + 4
rank (at_last_reset m) = 4 * m + 3
rank at_stop = 1
rank ended = 0

pub out_info_per_sec-rank :
    (p : Place) (l : List ℕ) (stop : ℕ) → rank (out_info_per_sec p l stop).0.place ≡ rank p - 1
unfolding out_info_per_sec
out_info_per_sec-rank absent l stop = refl
out_info_per_sec-rank (testing zero) l stop = refl
out_info_per_sec-rank (testing (suc m)) l stop = omega arith
out_info_per_sec-rank (at_reset m) l stop = omega arith
out_info_per_sec-rank (asleep m) l stop = omega arith
out_info_per_sec-rank (at_last_reset m) l stop = omega arith
out_info_per_sec-rank at_stop l stop = refl
out_info_per_sec-rank ended l stop = refl

-- A thread that has been created has a place, and one that has not stays absent.
abbrev Stays : (created : Bool) → Place → Type 0
Stays true absent = ⊥
Stays true _ = Unit
Stays false p = p ≡ absent

out_info_per_sec-Stays :
    (created : Bool) (p : Place) (l : List ℕ) (stop : ℕ)
    → Stays created p
    → Stays created (out_info_per_sec p l stop).0.place
unfolding out_info_per_sec
out_info_per_sec-Stays true absent l stop h = h
out_info_per_sec-Stays true (testing zero) l stop h = tt
out_info_per_sec-Stays true (testing (suc m)) l stop h = tt
out_info_per_sec-Stays true (at_reset m) l stop h = tt
out_info_per_sec-Stays true (asleep m) l stop h = tt
out_info_per_sec-Stays true (at_last_reset m) l stop h = tt
out_info_per_sec-Stays true at_stop l stop h = tt
out_info_per_sec-Stays true ended l stop h = tt
out_info_per_sec-Stays false p l stop h = ap (λ p. (out_info_per_sec p l stop).0.place) h

pub run-Stays :
    (a b : Bool) (turns : List Who) (d : Demo)
    → Stays a d.first.place
    → Stays b d.second.place
    → Stays a (run turns d).first.place × Stays b (run turns d).second.place
unfolding run turn
run-Stays a b [] d h k = (h, k)
run-Stays a b (first ∷ turns) d h k =
    run-Stays a b turns (turn first d)
      (out_info_per_sec-Stays a d.first.place d.first.printed d.stop h) k
run-Stays a b (second ∷ turns) d h k =
    run-Stays a b turns (turn second d) h
      (out_info_per_sec-Stays b d.second.place d.second.printed d.stop k)
run-Stays a b (main ∷ turns) d h k = run-Stays a b turns (turn main d) h k

pub counter-Stays : (created : Bool) → Stays created (counter created).place
unfolding counter
counter-Stays true = tt
counter-Stays false = refl

-- A thread that has been created has printed 1 to 10, and another one nothing.
abbrev pub Output : (created : Bool) → List ℕ → Type 0
Output true l = l ≡ counted 10
Output false l = l ≡ []

pub Stays-Output :
    (created : Bool) (p : Place) (l : List ℕ)
    → Stays created p
    → rank p ≡ 0
    → Printed p l
    → Output created l
Stays-Output true absent l h e q = absurd h
Stays-Output true (testing m) l h e q = absurd (omega arith)
Stays-Output true (at_reset m) l h e q = absurd (omega arith)
Stays-Output true (asleep m) l h e q = absurd (omega arith)
Stays-Output true (at_last_reset m) l h e q = absurd (omega arith)
Stays-Output true at_stop l h e q = absurd (omega arith)
Stays-Output true ended l h e q = q
Stays-Output false p l h e q = subst (λ p. Printed p l) h q
