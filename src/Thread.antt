-- ===== src/Thread.antt =====
-- private_libary/linux_thread/linux_thread.c: a detached thread, and the test for a running one.
pub mod Demo
mod Tests
use itrace.Prelude.{ℕ, ◌≡◌, arith, ◌==◌, ◌||◌, not, if◌then◌else◌, Bool, ℤ, pos, ◌==ℤ◌}

-- What the calls of `create_detached_pthread` return; the result of `pthread_attr_setscope` is
-- overwritten.
pub record Calls : Type 0 where
  pub attr_init : ℤ
  pub attr_setdetachstate : ℤ
  pub create : ℤ

-- The result, whether a thread is created, and whether the attributes are destroyed.
pub record Created : Type 0 where
  pub err : ℤ
  pub thread : Bool
  pub destroyed : Bool

pub create_detached_pthread : Calls → Created
create_detached_pthread c =
    if not (c.attr_init ==ℤ pos 0)
    then record { err = c.attr_init; thread = Bool.false; destroyed = Bool.false }
    else if c.attr_setdetachstate ==ℤ pos 0
    then record { err = c.create; thread = c.create ==ℤ pos 0; destroyed = Bool.true }
    else record { err = c.attr_setdetachstate; thread = Bool.false; destroyed = Bool.true }

-- The result is 0 exactly when there is a thread.
pub create_detached_pthread-thread :
    (c : Calls) → ((create_detached_pthread c).err ==ℤ pos 0) ≡ (create_detached_pthread c).thread
unfolding create_detached_pthread
create_detached_pthread-thread c = ground arith

-- `ESRCH` and `EINVAL`, as Linux numbers them.
abbrev esrch : ℕ
esrch = 3

abbrev einval : ℕ
einval = 22

-- The test of `kill_rc`, what `kill` returns.
pub thread_is_running : (kill_rc : ℤ) → ℕ
thread_is_running kill_rc =
    if not ((kill_rc ==ℤ pos esrch) || (kill_rc ==ℤ pos einval)) then 1 else 0
