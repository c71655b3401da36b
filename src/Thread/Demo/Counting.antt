-- ===== src/Thread/Demo/Counting.antt =====
-- What the two threads of private_libary/linux_thread/main.c print, and what `main` has waited for.
use itrace.Prelude.{
  ℕ, zero, suc, ◌+◌, ◌-◌, ◌≡◌, ◌⊎◌, inl, inr, refl, ap, ◌∙◌, List, [], ◌∷◌, ◌++◌, Bool, true, false,
  arith, subst,
}
use itrace.Thread.Demo.{
  Place, absent, testing, at_reset, asleep, at_last_reset, at_stop, ended, Counter,
  out_info_per_sec, MainPlace, polling, waiting, rechecking, over, main_turn, Demo, Who, first,
  second, main, turn, run, counter, demo_start,
}

-- 1 to `n`.
abbrev pub counted : ℕ → List ℕ
counted zero = []
counted (suc n) = counted n ++ suc n ∷ []

-- What a thread has printed at each place.
abbrev pub Printed : Place → List ℕ → Type 0
Printed absent l = l ≡ []
Printed (testing m) l = (k : ℕ) × (k + m ≡ 10) × (l ≡ counted k)
Printed (at_reset m) l = (k : ℕ) × (k + m ≡ 10) × (l ≡ counted k)
Printed (asleep m) l = (k : ℕ) × (k + m ≡ 10) × (l ≡ counted k)
Printed (at_last_reset m) l = (k : ℕ) × (k + m ≡ 10) × (l ≡ counted k)
Printed at_stop l = l ≡ counted 10
Printed ended l = l ≡ counted 10

add_zero : (k : ℕ) → k + 0 ≡ 10 → k ≡ 10
add_zero k e = omega arith

next : (k m : ℕ) → k + suc m ≡ 10 → 10 - m ≡ suc k
next k m e = omega arith

out_info_per_sec-Printed :
    (p : Place) (l : List ℕ) (stop : ℕ)
    → Printed p l
    → let r = out_info_per_sec p l stop in Printed r.0.place r.0.printed
unfolding out_info_per_sec
out_info_per_sec-Printed absent l stop h = h
out_info_per_sec-Printed (testing zero) l stop (k, e, q) = q ∙ ap counted (add_zero k e)
out_info_per_sec-Printed (testing (suc m)) l stop (k, e, q) = (
  suc k,
  omega arith,
  ap (λ t. t ++ (10 - m) ∷ []) q ∙ ap (λ n. counted k ++ n ∷ []) (next k m e),
)
out_info_per_sec-Printed (at_reset m) l stop h = h
out_info_per_sec-Printed (asleep m) l stop h = h
out_info_per_sec-Printed (at_last_reset m) l stop h = h
out_info_per_sec-Printed at_stop l stop h = h
out_info_per_sec-Printed ended l stop h = h

-- Either `stop` is 0, or the thread has passed `stop = 1`.
IsTold : (stop : ℕ) → Place → Type 0
IsTold stop p = (stop ≡ 0) ⊎ (p ≡ ended)

-- A thread leaves `stop` as it was, or resets it, or is over; once over it stays so.
out_info_per_sec-stop :
    (p : Place) (l : List ℕ) (stop : ℕ)
    → let r = out_info_per_sec p l stop in (r.1 ≡ stop) ⊎ (r.1 ≡ 0) ⊎ (r.0.place ≡ ended)
unfolding out_info_per_sec
out_info_per_sec-stop absent l stop = inl refl
out_info_per_sec-stop (testing zero) l stop = inl refl
out_info_per_sec-stop (testing (suc m)) l stop = inl refl
out_info_per_sec-stop (at_reset m) l stop = inr (inl refl)
out_info_per_sec-stop (asleep m) l stop = inl refl
out_info_per_sec-stop (at_last_reset m) l stop = inr (inl refl)
out_info_per_sec-stop at_stop l stop = inr (inr refl)
out_info_per_sec-stop ended l stop = inl refl

out_info_per_sec-over :
    (p : Place) (l : List ℕ) (stop : ℕ) → p ≡ ended → (out_info_per_sec p l stop).0.place ≡ ended
unfolding out_info_per_sec
out_info_per_sec-over p l stop e = ap (λ p. (out_info_per_sec p l stop).0.place) e

-- One of the two threads is over.
abbrev OneOver : Demo → Type 0
OneOver d = (d.first.place ≡ ended) ⊎ (d.second.place ≡ ended)

abbrev Waited : MainPlace → Demo → Type 0
Waited polling d = Unit
Waited waiting d = OneOver d
Waited rechecking d = OneOver d
Waited over d = OneOver d

pub record IsHonest (d : Demo) : Type 0 where
  pub first : Printed d.first.place d.first.printed
  pub second : Printed d.second.place d.second.printed
  told : (d.stop ≡ 0) ⊎ OneOver d
  waited : Waited d.main d

Waited-mono : (m : MainPlace) (d e : Demo) → (OneOver d → OneOver e) → Waited m d → Waited m e
Waited-mono polling d e f w = tt
Waited-mono waiting d e f w = f w
Waited-mono rechecking d e f w = f w
Waited-mono over d e f w = f w

main_turn-Waited :
    (m : MainPlace) (d : Demo)
    → (d.stop ≡ 0) ⊎ OneOver d
    → Waited m d
    → Waited (main_turn m d.stop) d
unfolding main_turn
main_turn-Waited polling d (inl z) w = ground arith
main_turn-Waited polling d (inr o) w = ground arith
main_turn-Waited waiting d t w = w
main_turn-Waited rechecking d t w = ground arith
main_turn-Waited over d t w = w

on_left {ℓ} : {A B C : Type ℓ} → (A → B) → A ⊎ C → B ⊎ C
on_left f (inl a) = inl (f a)
on_left f (inr c) = inr c

on_right {ℓ} : {A B C : Type ℓ} → (B → C) → A ⊎ B → A ⊎ C
on_right f (inl a) = inl a
on_right f (inr b) = inr (f b)

-- `stop` after the turn of a thread, where `After` holds if a thread was over or this one now is.
told-after {ℓ} :
    {Before After Now : Type ℓ} (before after : ℕ)
    → (before ≡ 0) ⊎ Before
    → (Before → After)
    → (Now → After)
    → (after ≡ before) ⊎ (after ≡ 0) ⊎ Now
    → (after ≡ 0) ⊎ After
told-after before after (inl z) f g (inl e) = inl (e ∙ z)
told-after before after (inr b) f g (inl e) = inr (f b)
told-after before after t f g (inr (inl z)) = inl z
told-after before after t f g (inr (inr n)) = inr (g n)

turn-IsHonest : (w : Who) (d : Demo) → IsHonest d → IsHonest (turn w d)
unfolding turn
turn-IsHonest main d h = record {
  first = h.first;
  second = h.second;
  told = h.told;
  waited =
      Waited-mono (main_turn d.main d.stop) d (turn main d) (λ o. o)
        (main_turn-Waited d.main d h.told h.waited);
}
turn-IsHonest first d h =
    let keep = on_left (out_info_per_sec-over d.first.place d.first.printed d.stop) in
    record {
      first = out_info_per_sec-Printed d.first.place d.first.printed d.stop h.first;
      second = h.second;
      told =
          told-after d.stop (turn first d).stop h.told keep inl
            (out_info_per_sec-stop d.first.place d.first.printed d.stop);
      waited = Waited-mono d.main d (turn first d) keep h.waited;
    }
turn-IsHonest second d h =
    let keep = on_right (out_info_per_sec-over d.second.place d.second.printed d.stop) in
    record {
      first = h.first;
      second = out_info_per_sec-Printed d.second.place d.second.printed d.stop h.second;
      told =
          told-after d.stop (turn second d).stop h.told keep inr
            (out_info_per_sec-stop d.second.place d.second.printed d.stop);
      waited = Waited-mono d.main d (turn second d) keep h.waited;
    }

pub run-IsHonest : (turns : List Who) (d : Demo) → IsHonest d → IsHonest (run turns d)
unfolding run
run-IsHonest [] d h = h
run-IsHonest (w ∷ turns) d h = run-IsHonest turns (turn w d) (turn-IsHonest w d h)

counter-Printed : (created : Bool) → Printed (counter created).place (counter created).printed
unfolding counter
counter-Printed true = (0, refl, refl)
counter-Printed false = refl

pub demo_start-IsHonest : (a b : Bool) → IsHonest (demo_start a b)
unfolding demo_start
demo_start-IsHonest a b = record {
  first = counter-Printed a;
  second = counter-Printed b;
  told = inl refl;
  waited = tt;
}

-- A thread that has come to its end, with all that it prints.
abbrev HasCounted : Counter → Type 0
HasCounted c = (c.place ≡ ended) × (c.printed ≡ counted 10)

Printed-HasCounted : (c : Counter) → Printed c.place c.printed → c.place ≡ ended → HasCounted c
Printed-HasCounted c h e = (e, subst (λ p. Printed p c.printed) e h)

-- In whatever order the two threads and `main` take their turns, and whichever of the threads have
-- been created: when `main` has printed "Over", one of the threads has come to its end, and has
-- printed the numbers from 1 to 10 in order, each once.
run-over :
    (first_created second_created : Bool) (turns : List Who)
    → let d = run turns (demo_start first_created second_created) in
      d.main ≡ over → HasCounted d.first ⊎ HasCounted d.second
run-over a b turns e =
    let d = run turns (demo_start a b) in
    let h = run-IsHonest turns (demo_start a b) (demo_start-IsHonest a b) in
    on_right (Printed-HasCounted d.second h.second)
      (on_left (Printed-HasCounted d.first h.first) (subst (λ m. Waited m d) e h.waited))
