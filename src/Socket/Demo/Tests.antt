-- ===== src/Socket/Demo/Tests.antt =====
-- The client demonstration (private_libary/linux_socket/main.c) at concrete inputs.
use itrace.Prelude.{◌≡◌, refl, [], ◌∷◌, some, true, false, pos, replicate, arith}
use itrace.Posix.{Sink, serve, nothing}
use itrace.Socket.Server.{create_clt_netsock, connect_again}
use itrace.Socket.Demo.{Client, open_clt}
use itrace.Socket.Demo.Received.{read_frames, hellos, open_clt-received}

-- The socket takes a byte at a time, and arrives twenty bytes at a time, after a pause.
abbrev new : Sink
new = record { accepted = []; asked = []; answers = replicate 620 (serve 0) }

connected : (create_clt_netsock (pos 3) true (false ∷ true ∷ [])).ret ≡ some (pos 3)
unfolding create_clt_netsock connect_again
connected = refl

open_clt-received_example :
    (c : Client) × (open_clt (pos 3) true (false ∷ true ∷ []) new ≡ some c)
    × (c.closed ≡ true)
    × (read_frames 20
          (record { pending = c.sink.accepted; answers = nothing ∷ replicate 620 (serve 19) })
        ≡ hellos 20 0)
open_clt-received_example =
    open_clt-received (pos 3) true (false ∷ true ∷ []) 3 new (nothing ∷ replicate 620 (serve 19))
      connected refl tt (omega arith) (omega arith, tt) (omega arith)
