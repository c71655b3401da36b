-- ===== src/Socket/Server/Frames.antt =====
-- What `create_netsock_server` (private_libary/linux_socket/linux_net_socket.c) makes of the frames
-- that clients send.
use itrace.Prelude.{ℕ, zero, suc, ◌≡◌, refl, List, [], ◌∷◌, Bool, length, ℤ, arith}
use itrace.Posix.{Source}
use itrace.Socket.HeadFrame.{HeadFrame}
use itrace.Socket.HeadFrame.Roundtrip.{read_head_frame-ret}
use itrace.Socket.Server.{
  serve_conn, Incoming, connection, listen_fails, accept_fails, listen_again, create_netsock_server,
}

serve_conn-calls :
    (fuel : ℕ) (room : ℕ → Bool) (calls : List (HeadFrame × List ℕ)) (s : Source)
    → (serve_conn fuel room calls s).calls ≡ calls
unfolding serve_conn
serve_conn-calls zero room calls s = refl
serve_conn-calls (suc fuel) room calls s = ground (arith, read_head_frame-ret s)

listen_again-calls :
    (room : ℕ → Bool) (calls : List (HeadFrame × List ℕ)) (incoming : List Incoming)
    → (listen_again room calls incoming).1 ≡ calls
unfolding listen_again
listen_again-calls room calls [] = refl
listen_again-calls room calls (listen_fails ∷ rest) = refl
listen_again-calls room calls (accept_fails ∷ rest) = refl
listen_again-calls room calls (connection s ∷ rest) =
    let c = serve_conn (suc (length s.answers)) room calls s in
    ground (
      arith,
      serve_conn-calls (suc (length s.answers)) room calls s,
      listen_again-calls room c.calls rest,
    )

-- Whatever clients connect and send, `create_netsock_server` never calls `protocol`: it takes
-- every head frame for incomplete, since it compares the result of `read_head_frame` (1 or -1)
-- with the frame's size.
pub create_netsock_server-no_calls :
    (socket : ℤ) (binds : List Bool) (room : ℕ → Bool) (incoming : List Incoming)
    → (create_netsock_server socket binds room incoming).1 ≡ []
unfolding create_netsock_server
create_netsock_server-no_calls socket binds room incoming =
    ground (arith, listen_again-calls room [] incoming)
