-- ===== src/Socket/Server.antt =====
-- private_libary/linux_socket/linux_net_socket.c: the sockets that are bound and connected with
-- retries, and `create_netsock_server`.
pub mod Bind
pub mod Retries
pub mod Frames
mod Tests
use itrace.Prelude.{
  ℕ, zero, suc, ◌+◌, List, [], ◌∷◌, ◌++◌, Option, none, some, Bool, true, false, ltb, ◌==◌,
  if◌then◌else◌, length, ℤ, pos, minus_one, ◌==ℤ◌, is_neg,
}
use itrace.Posix.{Source}
use itrace.Socket.Transfer.{read_data}
use itrace.Socket.HeadFrame.{HeadFrame, head_frame_size, read_head_frame}

-- `MAX_TRY_BIND_TIMES` and `MAX_TRY_CONN_TIMES`
abbrev pub max_try_bind_times : ℕ
max_try_bind_times = 15

abbrev pub max_try_conn_times : ℕ
max_try_conn_times = 15

-- The result (`none`: the answers are used up), the calls made, and whether the socket was closed.
pub record Opened : Type 0 where
  pub ret : Option ℤ
  pub tries : ℕ
  pub closed : Bool

-- The `BIND_AGAIN` loop, over the answers of `bind`; `fd` is the socket.
pub bind_again : (fd : ℤ) → (try_bind_count : ℕ) → List Bool → Opened
bind_again fd try_bind_count [] = record { ret = none; tries = try_bind_count; closed = false }
bind_again fd try_bind_count (true ∷ binds) = record {
  ret = some fd;
  tries = try_bind_count + 1;
  closed = false;
}
bind_again fd try_bind_count (false ∷ binds) = elim (try_bind_count + 1 == max_try_bind_times) [
  | true ↦ record { ret = some minus_one; tries = try_bind_count + 1; closed = false }
  | false ↦ bind_again fd (try_bind_count + 1) binds
]

-- `socket` is what `socket()` returns.
pub create_srv_netsock : (socket : ℤ) → List Bool → Opened
unfolding bind_again
create_srv_netsock socket binds =
    if socket ==ℤ minus_one
    then record { ret = some minus_one; tries = 0; closed = true }
    else bind_again socket 0 binds

-- The `CONNECT_AGAIN` loop, over the answers of `connect`.
unfoldable pub connect_again : (fd : ℤ) → (try_count : ℕ) → List Bool → Opened
connect_again fd try_count [] = record { ret = none; tries = try_count; closed = false }
connect_again fd try_count (true ∷ connects) = record {
  ret = some fd;
  tries = try_count + 1;
  closed = false;
}
connect_again fd try_count (false ∷ connects) = elim (max_try_conn_times == try_count + 1) [
  | true ↦ record { ret = some minus_one; tries = try_count + 1; closed = true }
  | false ↦ connect_again fd (try_count + 1) connects
]

-- `address` says whether `inet_pton` does not fail.
unfoldable pub create_clt_netsock : (socket : ℤ) → (address : Bool) → List Bool → Opened
unfolding connect_again
create_clt_netsock socket address connects =
    if socket ==ℤ minus_one
    then record { ret = some minus_one; tries = 0; closed = true }
    else if address
    then connect_again socket 0 connects
    else record { ret = some minus_one; tries = 0; closed = false }

-- How the `while (1)` loop over one connection ends.
pub data Ending : Type 0 where
  relisten : Ending  -- `goto LISTEN_AGAIN`
  no_memory : Ending  -- `realloc` fails
  waiting : Ending  -- a `read` blocks

-- The calls of `protocol`, oldest first, and the end of the loop.
pub record Served : Type 0 where
  pub calls : List (HeadFrame × List ℕ)
  pub ending : Ending

-- One connection. Each round takes at least one answer of the kernel, so that one round more than
-- there are answers is enough. `room` says whether a `realloc` to a length succeeds.
pub serve_conn :
    (fuel : ℕ) → (room : ℕ → Bool) → (calls : List (HeadFrame × List ℕ)) → Source → Served
serve_conn zero room calls s = record { calls = calls; ending = waiting }
serve_conn (suc fuel) room calls s =
    let head = read_head_frame s in
    let len = head.hf.len in
    let body = read_data head.left len in
    elim head.ret [
      | none ↦ record { calls = calls; ending = waiting }
      | some ret ↦ elim (ret ==ℤ pos head_frame_size) [
        | false ↦ record { calls = calls; ending = relisten }
        | true ↦ elim (ltb 0 len) [
          | false ↦ serve_conn fuel room calls head.left
          | true ↦ elim (if ltb 1024 len then room len else true) [
            | false ↦ record { calls = calls; ending = no_memory }
            | true ↦ elim body.ret [
              | none ↦ record { calls = calls; ending = waiting }
              | some got ↦ elim (got ==ℤ pos len) [
                | false ↦ record { calls = calls; ending = relisten }
                | true ↦ serve_conn fuel room (calls ++ (head.hf, body.stored) ∷ []) body.left
              ]
            ]
          ]
        ]
      ]
    ]

-- What `listen` and `accept` give, one after the other: a connection, or one of the two fails.
pub data Incoming : Type 0 where
  connection : Source → Incoming
  listen_fails : Incoming
  accept_fails : Incoming

-- The loop from `LISTEN_AGAIN` on; `none` while it goes on.
pub listen_again :
    (room : ℕ → Bool)
    → (calls : List (HeadFrame × List ℕ)) → List Incoming
    → Option ℤ × List (HeadFrame × List ℕ)
unfolding serve_conn
listen_again room calls [] = (none, calls)
listen_again room calls (listen_fails ∷ rest) = (some minus_one, calls)
listen_again room calls (accept_fails ∷ rest) = (some minus_one, calls)
listen_again room calls (connection s ∷ rest) =
    let c = serve_conn (suc (length s.answers)) room calls s in
    elim c.ending [
      | relisten ↦ listen_again room c.calls rest
      | no_memory ↦ (some minus_one, c.calls)
      | waiting ↦ (none, c.calls)
    ]

-- The result, and the calls of `protocol`.
pub create_netsock_server :
    (socket : ℤ)
    → (binds : List Bool) → (room : ℕ → Bool) → List Incoming
    → Option ℤ × List (HeadFrame × List ℕ)
unfolding create_srv_netsock listen_again
create_netsock_server socket binds room incoming = elim (create_srv_netsock socket binds).ret [
  | none ↦ (none, [])
  | some listen_fd ↦
      if is_neg listen_fd then (some minus_one, []) else listen_again room [] incoming
]
