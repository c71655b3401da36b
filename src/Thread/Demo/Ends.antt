-- ===== src/Thread/Demo/Ends.antt =====
-- That the program of private_libary/linux_thread/main.c comes to its end.
use itrace.Prelude.{
  ℕ, zero, suc, ◌-◌, ◌≡◌, ◌≤◌, ◌<◌, ◌⊎◌, inl, inr, refl, sym, List, [], ◌∷◌, Bool, true, false,
  ◌||◌, arith, if◌then◌else◌, subst,
}
use itrace.Thread.Demo.Counting.{run-IsHonest, demo_start-IsHonest}
use itrace.Thread.Demo.Places.{
  rank, out_info_per_sec-rank, run-Stays, counter-Stays, Output, Stays-Output,
}
use itrace.Thread.Demo.{
  Place, absent, testing, at_reset, asleep, at_last_reset, at_stop, ended, out_info_per_sec,
  MainPlace, polling, waiting, rechecking, over, main_turn, Demo, Who, first, second, main, turn,
  run, counter, demo_start,
}

-- The number of turns of one thread.
abbrev firsts : List Who → ℕ
firsts [] = 0
firsts (first ∷ turns) = suc (firsts turns)
firsts (second ∷ turns) = firsts turns
firsts (main ∷ turns) = firsts turns

abbrev seconds : List Who → ℕ
seconds [] = 0
seconds (first ∷ turns) = seconds turns
seconds (second ∷ turns) = suc (seconds turns)
seconds (main ∷ turns) = seconds turns

run-rank :
    (turns : List Who) (d : Demo)
    → (rank (run turns d).first.place ≡ rank d.first.place - firsts turns)
      × (rank (run turns d).second.place ≡ rank d.second.place - seconds turns)
unfolding run turn
run-rank [] d = (omega arith, omega arith)
run-rank (first ∷ turns) d =
    let ih = run-rank turns (turn first d) in
    let r = out_info_per_sec-rank d.first.place d.first.printed d.stop in
    (omega (arith, ih.0, r), ih.1)
run-rank (second ∷ turns) d =
    let ih = run-rank turns (turn second d) in
    let r = out_info_per_sec-rank d.second.place d.second.printed d.stop in
    (ih.0, omega (arith, ih.1, r))
run-rank (main ∷ turns) d = run-rank turns (turn main d)

-- A thread is under way, or the last one to end has set `stop`.
abbrev UnderWay : Demo → Type 0
UnderWay d = (0 < rank d.first.place) ⊎ (0 < rank d.second.place) ⊎ (d.stop ≡ 1)

-- After its turn, a thread is under way, or it has set `stop`, or it had ended and left `stop`.
out_info_per_sec-stop :
    (p : Place) (l : List ℕ) (stop : ℕ)
    → let r = out_info_per_sec p l stop in
      (0 < rank r.0.place) ⊎ (r.1 ≡ 1) ⊎ ((rank p ≡ 0) × (r.1 ≡ stop))
unfolding out_info_per_sec
out_info_per_sec-stop absent l stop = inr (inr (refl, refl))
out_info_per_sec-stop (testing zero) l stop = inl (omega arith)
out_info_per_sec-stop (testing (suc m)) l stop = inl (omega arith)
out_info_per_sec-stop (at_reset m) l stop = inl (omega arith)
out_info_per_sec-stop (asleep m) l stop = inl (omega arith)
out_info_per_sec-stop (at_last_reset m) l stop = inl (omega arith)
out_info_per_sec-stop at_stop l stop = inr (inl refl)
out_info_per_sec-stop ended l stop = inr (inr (refl, refl))

turn-UnderWay : (w : Who) (d : Demo) → UnderWay d → UnderWay (turn w d)
unfolding turn
turn-UnderWay main d h = h
turn-UnderWay first d h = ground (arith, out_info_per_sec-stop d.first.place d.first.printed d.stop)
turn-UnderWay second d h =
    ground (arith, out_info_per_sec-stop d.second.place d.second.printed d.stop)

run-UnderWay : (turns : List Who) (d : Demo) → UnderWay d → UnderWay (run turns d)
unfolding run
run-UnderWay [] d h = h
run-UnderWay (w ∷ turns) d h = run-UnderWay turns (turn w d) (turn-UnderWay w d h)

demo_start-UnderWay : (a b : Bool) → a || b ≡ true → UnderWay (demo_start a b)
unfolding demo_start counter
demo_start-UnderWay true b e = inl (omega arith)
demo_start-UnderWay false true e = inr (inl (omega arith))
demo_start-UnderWay false false e = ground arith

main_turn-over :
    (m : MainPlace) (stop : ℕ)
    → stop ≡ 1
    → main_turn (main_turn (main_turn m stop) stop) stop ≡ over
unfolding main_turn
main_turn-over m stop e =
    subst (λ s. main_turn (main_turn (main_turn m s) s) s ≡ over) (sym e) (go m)
  where
    go : (m : MainPlace) → main_turn (main_turn (main_turn m 1) 1) 1 ≡ over
    go polling = refl
    go waiting = refl
    go rechecking = refl
    go over = refl

-- The turns that a thread takes from its creation to its end.
abbrev turns_of : (created : Bool) → ℕ
turns_of created = if created then 42 else 0

start_rank :
    (a b : Bool)
    → (rank (demo_start a b).first.place ≡ turns_of a)
      × (rank (demo_start a b).second.place ≡ turns_of b)
unfolding demo_start counter
start_rank true true = (refl, refl)
start_rank true false = (refl, refl)
start_rank false true = (refl, refl)
start_rank false false = (refl, refl)

stop_set : (d : Demo) → UnderWay d → rank d.first.place ≡ 0 → rank d.second.place ≡ 0 → d.stop ≡ 1
stop_set d h a b = ground arith

-- If at least one of the threads has been created, and each of those has had 42 turns, in whatever order
-- the turns were taken, each of those has printed the numbers from 1 to 10 in order, each once, and
-- `stop` is 1, so that three turns of `main` bring it to "Over".
pub run-ends :
    (first_created second_created : Bool) (turns : List Who)
    → first_created || second_created ≡ true
    → turns_of first_created ≤ firsts turns
    → turns_of second_created ≤ seconds turns
    → let d = run turns (demo_start first_created second_created) in
      Output first_created d.first.printed
      × Output second_created d.second.printed
      × (d.stop ≡ 1)
      × ((run (main ∷ main ∷ main ∷ []) d).main ≡ over)
unfolding run turn demo_start
run-ends a b turns e f s =
    let d = run turns (demo_start a b) in
    let r = run-rank turns (demo_start a b) in
    let z : rank d.first.place ≡ 0 = omega (arith, r.0, start_rank a b) in
    let y : rank d.second.place ≡ 0 = omega (arith, r.1, start_rank a b) in
    let h = run-IsHonest turns (demo_start a b) (demo_start-IsHonest a b) in
    let (p, q) = run-Stays a b turns (demo_start a b) (counter-Stays a) (counter-Stays b) in
    let stopped =
      stop_set d (run-UnderWay turns (demo_start a b) (demo_start-UnderWay a b e)) z y in
    (
      Stays-Output a d.first.place d.first.printed p z h.first,
      Stays-Output b d.second.place d.second.printed q y h.second,
      stopped,
      main_turn-over d.main d.stop stopped,
    )
