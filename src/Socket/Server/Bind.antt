-- ===== src/Socket/Server/Bind.antt =====
-- What `create_srv_netsock` (private_libary/linux_socket/linux_net_socket.c) returns, for any answers of `bind`.
use itrace.Prelude.{
  ℕ, zero, suc, ◌+◌, ◌≡◌, ◌≢◌, ◌<◌, ◌⊎◌, inl, inr, refl, List, [], ◌∷◌, Option, none, some, Bool,
  true, false, ◌||◌, take, length, ℤ, pos, negsuc, minus_one, arith,
}
use itrace.Socket.Server.{max_try_bind_times, bind_again, create_srv_netsock}

abbrev pub any_true : List Bool → Bool
any_true [] = false
any_true (b ∷ bs) = b || any_true bs

-- A result of up to `k` calls of `bind` on `fd`, with `tries` calls made in all: a call succeeds, all `k`
-- fail, or they are still being made.
abbrev Bound : (fd : ℤ) → (k : ℕ) → List Bool → (tries : ℕ) → Option ℤ → Type 0
Bound fd k binds tries none = (any_true (take k binds) ≡ false) × (length binds < k)
Bound fd k binds tries (some ret) =
    ((ret ≡ fd) × (any_true (take k binds) ≡ true))
    ⊎ ((ret ≡ minus_one) × (any_true (take k binds) ≡ false) × (tries ≡ max_try_bind_times))

-- Without a socket `bind` is not called.
abbrev pub Created : (socket : ℤ) → List Bool → (tries : ℕ) → Option ℤ → Type 0
Created socket binds tries ret =
    ((socket ≡ minus_one) × (ret ≡ some minus_one) × (tries ≡ 0))
    ⊎ ((socket ≢ minus_one) × Bound socket max_try_bind_times binds tries ret)

bind_again-Bound :
    (binds : List Bool) (k count : ℕ) (fd : ℤ)
    → count + suc k ≡ max_try_bind_times
    → let r = bind_again fd count binds in Bound fd (suc k) binds r.tries r.ret
unfolding bind_again
bind_again-Bound [] k count fd e = ground arith
bind_again-Bound (true ∷ binds) k count fd e = ground arith
bind_again-Bound (false ∷ binds) zero count fd e = ground arith
bind_again-Bound (false ∷ binds) (suc k) count fd e =
    ground (arith, bind_again-Bound binds k (count + 1) fd)

pub create_srv_netsock-Created :
    (socket : ℤ) (binds : List Bool)
    → let r = create_srv_netsock socket binds in Created socket binds r.tries r.ret
unfolding create_srv_netsock
create_srv_netsock-Created (pos n) binds =
    inr (ground arith, bind_again-Bound binds 14 0 (pos n) refl)
create_srv_netsock-Created (negsuc zero) binds = inl (refl, refl, refl)
create_srv_netsock-Created (negsuc (suc n)) binds =
    inr (ground arith, ground (arith, bind_again-Bound binds 14 0 (negsuc (suc n)) refl))
