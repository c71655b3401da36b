-- ===== src/Socket/Demo.antt =====
-- private_libary/linux_socket/main.c: a server, and a client that sends it twenty messages behind their
-- head frames, each in a thread of its own. What they print is left out.
pub mod Sent
pub mod Received
mod Tests
use itrace.Prelude.{
  ℕ, zero, suc, ◌+◌, List, [], ◌∷◌, ◌++◌, Option, none, some, Bool, true, false, length, ℤ, is_neg,
  pos, ◌==ℤ◌, if◌then◌else◌,
}
use itrace.Posix.{Sink}
use itrace.Time.{print_padded}
use itrace.Socket.Transfer.{write_data}
use itrace.Socket.HeadFrame.{HeadFrame, head_frame_size, to_bytes, init_head_frame}
use itrace.Socket.Server.{create_clt_netsock, Incoming, create_netsock_server}
use itrace.Thread
use itrace.Thread.{create_detached_pthread}

-- "HHHHHHello: %02d\n", the bytes of `msg` before the terminator
pub hello : ℕ → List ℕ
hello i =
    0x48
      ∷ 0x48
      ∷ 0x48
      ∷ 0x48
      ∷ 0x48
      ∷ 0x48
      ∷ 0x65
      ∷ 0x6c
      ∷ 0x6c
      ∷ 0x6f
      ∷ 0x3a
      ∷ 0x20
      ∷ print_padded 2 i
    ++ 0x0a ∷ []

-- The socket, and whether the client has come to its `close`; it has not while a call blocks.
pub record Client : Type 0 where
  pub sink : Sink
  pub closed : Bool

-- The `for` loop, with `left` rounds to go; the results of `write_data` are only printed.
pub clt_loop : (left i : ℕ) → Sink → Client
clt_loop zero i s = record { sink = s; closed = true }
clt_loop (suc left) i s =
    let msg = hello i in
    let hf = init_head_frame i (i + 1) (i + 2) (length msg) in
    let head = write_data s (to_bytes hf) head_frame_size in
    let body = write_data head.sink msg (length msg) in
    let rest = clt_loop left (i + 1) body.sink in
    elim head.ret [
      | none ↦ record { sink = head.sink; closed = false }
      | some head_ret ↦ elim body.ret [
        | none ↦ record { sink = body.sink; closed = false }
        | some body_ret ↦ rest
      ]
    ]

-- The socket of the connection is `s`; `none` while `connect` blocks, or if there is no connection.
pub open_clt : (socket : ℤ) → (address : Bool) → (connects : List Bool) → Sink → Option Client
unfolding clt_loop
open_clt socket address connects s = elim (create_clt_netsock socket address connects).ret [
  | none ↦ none
  | some fd ↦ if is_neg fd then none else some (clt_loop 20 0 s)
]

-- The calls of `protocol` that `open_server` comes to, which would print the frame and its data.
open_server :
    (socket : ℤ)
    → (binds : List Bool) → (room : ℕ → Bool) → List Incoming
    → List (HeadFrame × List ℕ)
open_server socket binds room incoming = (create_netsock_server socket binds room incoming).1

-- How far `main` comes; it returns -1 where a thread is not created.
pub data Demo : Type 0 where
  no_threads : Demo
  server_alone : Demo  -- the process ends, and with it the thread
  both_threads : Demo  -- the `while(1)` loop of `sleep`

pub main : (srv clt : Thread.Calls) → Demo
main srv clt =
    if (create_detached_pthread srv).err ==ℤ pos 0
    then if (create_detached_pthread clt).err ==ℤ pos 0 then both_threads else server_alone
    else no_threads
