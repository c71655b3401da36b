-- ===== src/Socket/Server/Retries.antt =====
-- The retries of `create_srv_netsock` and `create_clt_netsock`
-- (private_libary/linux_socket/linux_net_socket.c).
use itrace.Prelude.{
  ℕ, zero, suc, ◌+◌, ◌<◌, ◌≡◌, refl, List, ◌∷◌, ◌++◌, some, Bool, true, false, replicate, ℤ, ◌==ℤ◌,
  minus_one, arith,
}
use itrace.Socket.Server.{
  max_try_bind_times, max_try_conn_times, bind_again, create_srv_netsock, connect_again,
  create_clt_netsock,
}

bind_again-bound :
    (k count : ℕ) (fd : ℤ) (more : List Bool)
    → count + k < max_try_bind_times
    → bind_again fd count (replicate k false ++ true ∷ more)
      ≡ record { ret = some fd; tries = count + k + 1; closed = false }
unfolding bind_again
bind_again-bound zero count fd more h = ground arith
bind_again-bound (suc k) count fd more h = ground (arith, bind_again-bound k (count + 1) fd more)

bind_again-fails :
    (k count : ℕ) (fd : ℤ) (more : List Bool)
    → count + suc k ≡ max_try_bind_times
    → bind_again fd count (replicate (suc k) false ++ more)
      ≡ record { ret = some minus_one; tries = max_try_bind_times; closed = false }
unfolding bind_again
bind_again-fails zero count fd more h = ground arith
bind_again-fails (suc k) count fd more h = ground (arith, bind_again-fails k (count + 1) fd more)

-- With a socket from `socket()`, `create_srv_netsock` returns it if one of the first fifteen calls
-- of `bind` succeeds, and makes no further call; if all fifteen fail it returns -1, and the socket
-- stays open.
create_srv_netsock-retries :
    (fd : ℤ) (k : ℕ) (more : List Bool)
    → (fd ==ℤ minus_one) ≡ false
    → k < max_try_bind_times
    → (create_srv_netsock fd (replicate k false ++ true ∷ more)
        ≡ record { ret = some fd; tries = k + 1; closed = false })
      × (create_srv_netsock fd (replicate max_try_bind_times false ++ more)
          ≡ record { ret = some minus_one; tries = max_try_bind_times; closed = false })
unfolding create_srv_netsock
create_srv_netsock-retries fd k more v h = (
  ground (arith, bind_again-bound k 0 fd more),
  ground (arith, bind_again-fails 14 0 fd more refl),
)

connect_again-connected :
    (k count : ℕ) (fd : ℤ) (more : List Bool)
    → count + k < max_try_conn_times
    → connect_again fd count (replicate k false ++ true ∷ more)
      ≡ record { ret = some fd; tries = count + k + 1; closed = false }
unfolding connect_again
connect_again-connected zero count fd more h = ground arith
connect_again-connected (suc k) count fd more h =
    ground (arith, connect_again-connected k (count + 1) fd more)

connect_again-fails :
    (k count : ℕ) (fd : ℤ) (more : List Bool)
    → count + suc k ≡ max_try_conn_times
    → connect_again fd count (replicate (suc k) false ++ more)
      ≡ record { ret = some minus_one; tries = max_try_conn_times; closed = true }
unfolding connect_again
connect_again-fails zero count fd more h = ground arith
connect_again-fails (suc k) count fd more h =
    ground (arith, connect_again-fails k (count + 1) fd more)

-- With a socket and an address, `create_clt_netsock` returns the socket if one of the first
-- fifteen calls of `connect` succeeds, and makes no further call; if all fifteen fail it closes
-- the socket and returns -1.
create_clt_netsock-retries :
    (fd : ℤ) (k : ℕ) (more : List Bool)
    → (fd ==ℤ minus_one) ≡ false
    → k < max_try_conn_times
    → (create_clt_netsock fd true (replicate k false ++ true ∷ more)
        ≡ record { ret = some fd; tries = k + 1; closed = false })
      × (create_clt_netsock fd true (replicate max_try_conn_times false ++ more)
          ≡ record { ret = some minus_one; tries = max_try_conn_times; closed = true })
unfolding create_clt_netsock
create_clt_netsock-retries fd k more v h = (
  ground (arith, connect_again-connected k 0 fd more),
  ground (arith, connect_again-fails 14 0 fd more refl),
)
