-- ===== src/Socket/Server/Tests.antt =====
-- The sockets and the server (private_libary/linux_socket/linux_net_socket.c) at concrete inputs.
use itrace.Prelude.{◌≡◌, [], ◌∷◌, true, pos, replicate}
use itrace.Posix.{Source, serve}
use itrace.Socket.Server.{connection, listen_fails, create_netsock_server}
use itrace.Socket.Server.Frames.{create_netsock_server-no_calls}

-- A client that sends a head frame with one byte of data, and the byte.
abbrev hello : Source
hello = record {
  pending = 7 ∷ 0 ∷ 0 ∷ 0 ∷ 1 ∷ 0 ∷ 0 ∷ 0 ∷ 8 ∷ 0 ∷ 0 ∷ 0 ∷ 9 ∷ 0 ∷ 0 ∷ 0 ∷ 0x48 ∷ [];
  answers = replicate 20 (serve 16);
}

create_netsock_server-no_calls_example :
    (create_netsock_server (pos 3) (true ∷ []) (λ n. true) (connection hello ∷ listen_fails ∷ [])).1
    ≡ []
create_netsock_server-no_calls_example =
    create_netsock_server-no_calls (pos 3) (true ∷ []) (λ n. true)
      (connection hello ∷ listen_fails ∷ [])
