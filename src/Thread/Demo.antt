-- ===== src/Thread/Demo.antt =====
-- private_libary/linux_thread/main.c: two threads that count to ten, and a `main` that waits for `stop`.
-- The three run in any order, a turn at a time; a turn ends where `stop` has been read or written.
pub mod Counting
pub mod Places
pub mod Ends
mod Tests
use itrace.Prelude.{ℕ, zero, suc, ◌-◌, ◌==◌, if◌then◌else◌, List, [], ◌∷◌, ◌++◌, Bool}

-- Where a thread stands in `out_info_per_sec`, with its `max_count`.
pub data Place : Type 0 where
  absent : Place  -- it has not been created
  testing : (max_count : ℕ) → Place  -- before `max_count-- > 0`
  at_reset : (max_count : ℕ) → Place  -- before the first `stop = 0`
  asleep : (max_count : ℕ) → Place
  at_last_reset : (max_count : ℕ) → Place  -- before the second `stop = 0`
  at_stop : Place  -- before `stop = 1`
  ended : Place

-- The numbers are those that the thread has printed.
pub record Counter : Type 0 where
  pub place : Place
  pub printed : List ℕ

-- A turn of a thread; the last result is `stop` after it.
pub out_info_per_sec : Place → (printed : List ℕ) → (stop : ℕ) → Counter × ℕ
out_info_per_sec absent printed stop = (record { place = absent; printed = printed }, stop)
out_info_per_sec (testing zero) printed stop = (record { place = at_stop; printed = printed }, stop)
out_info_per_sec (testing (suc max_count)) printed stop =
    (record { place = at_reset max_count; printed = printed ++ (10 - max_count) ∷ [] }, stop)
out_info_per_sec (at_reset max_count) printed stop =
    (record { place = asleep max_count; printed = printed }, 0)
out_info_per_sec (asleep max_count) printed stop =
    (record { place = at_last_reset max_count; printed = printed }, stop)
out_info_per_sec (at_last_reset max_count) printed stop =
    (record { place = testing max_count; printed = printed }, 0)
out_info_per_sec at_stop printed stop = (record { place = ended; printed = printed }, 1)
out_info_per_sec ended printed stop = (record { place = ended; printed = printed }, stop)

pub data MainPlace : Type 0 where
  polling : MainPlace  -- before the outer test
  waiting : MainPlace  -- in `sleep(3)`
  rechecking : MainPlace  -- before the inner test
  over : MainPlace  -- "Over"

pub main_turn : MainPlace → (stop : ℕ) → MainPlace
main_turn polling stop = if stop == 1 then waiting else polling
main_turn waiting stop = rechecking
main_turn rechecking stop = if stop == 1 then over else polling
main_turn over stop = over

pub record Demo : Type 0 where
  pub first : Counter
  pub second : Counter
  pub stop : ℕ
  pub main : MainPlace

pub data Who : Type 0 where
  first second main : Who

pub turn : Who → Demo → Demo
unfolding out_info_per_sec main_turn
turn first d =
    let r = out_info_per_sec d.first.place d.first.printed d.stop in
    record d { first = r.0; stop = r.1 }
turn second d =
    let r = out_info_per_sec d.second.place d.second.printed d.stop in
    record d { second = r.0; stop = r.1 }
turn main d = record d { main = main_turn d.main d.stop }

pub run : List Who → Demo → Demo
run [] d = d
run (w ∷ turns) d = run turns (turn w d)

-- A thread that the call of `create_detached_pthread` has made, or has not.
pub counter : (created : Bool) → Counter
counter created = record { place = if created then testing 10 else absent; printed = [] }

-- The state behind the two calls.
pub demo_start : (first_created second_created : Bool) → Demo
demo_start first_created second_created = record {
  first = counter first_created;
  second = counter second_created;
  stop = 0;
  main = polling;
}
