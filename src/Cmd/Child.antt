-- ===== src/Cmd/Child.antt =====
-- cmd_status_trans/server.c: `read_net_cmd_thread` and `send_status_data_thread` side by side. They share
-- one `struct CmdStatusRWThreadParams`: when a transfer to the client fails, the second thread overwrites
-- the `socket_fd` from which the first one reads. A turn is one access to what they share, or one call.
pub mod Ending
pub mod Loss
pub mod Runs
pub mod CmdTurns
pub mod Alone
pub mod StatusTurns
pub mod StatusAlone
pub mod Each
mod Tests
use itrace.Prelude.{
  ℕ, suc, ◌+◌, List, [], ◌∷◌, Option, none, some, Bool, true, false, ltb, if◌then◌else◌, get_or,
  drop, length, ℤ, pos, minus_one, is_neg, ◌==ℤ◌,
}
use itrace.Posix.{Source, Sink, read, got, failed, is_transient}
use itrace.General.{SystemStatus, running, stop, Received, readn, writen}
use itrace.Cmd.Net.{
  CmdThread, store, Round, again, header_lost, entity_lost, device_lost, blocked, pass_frame,
}
use itrace.Cmd.Status.{max_read_len_once}

-- `readn` of at least one byte from a descriptor that may have been overwritten: the first `read` of a
-- negative one fails with EBADF.
pub recv : (fd : ℤ) → Source → (n : ℕ) → Received
recv fd s n =
    if is_neg fd then record { ret = some minus_one; stored = []; left = s } else readn s n

-- Where `read_net_cmd_thread` stands. A `readn` under way keeps the descriptor that it was given.
pub data CmdPc : Type 0 where
  testing : CmdPc
  at_header : CmdPc
  in_header : (fd : ℤ) → CmdPc
  at_entity : CmdPc
  in_entity : (fd : ℤ) → CmdPc
  at_device : CmdPc  -- a whole frame is in the cache
  gone : CmdPc

-- Where `send_status_data_thread` stands.
pub data StatusPc : Type 0 where
  testing : StatusPc
  at_read : StatusPc
  at_send : (bs : List ℕ) → StatusPc
  in_send : (fd : ℤ) → (bs : List ℕ) → StatusPc
  gone : StatusPc

-- Both threads, the status and the descriptor that they share, the device and the socket.
pub record Child : Type 0 where
  pub sys_status : SystemStatus
  pub socket_fd : ℤ
  pub cmd_pc : CmdPc
  pub cmd : CmdThread
  pub status_pc : StatusPc
  pub status_dev : Source
  pub status_socket : Sink

-- A call has come back with `r` where it was to give `n`.
abbrev pub received : (n at : ℕ) → (waiting next : CmdPc) → Received → Child → Child
received n at waiting next r c = record c {
  cmd = record c.cmd { socket = r.left; cmd_cache = store at r.stored c.cmd.cmd_cache };
  cmd_pc = elim r.ret [ none ↦ waiting | some ret ↦ if ret ==ℤ pos n then next else CmdPc.gone ];
}

-- `if(cmd_cache[0] < 1) continue;`
abbrev pub skip_empty : Child → Child
skip_empty c = record c {
  cmd_pc = elim c.cmd_pc [
    | at_entity ↦ if ltb (get_or c.cmd.cmd_cache 0 0) 1 then CmdPc.testing else at_entity
    | pc ↦ pc
  ];
}

abbrev pub is_stop : SystemStatus → Bool
is_stop running = false
is_stop stop = true

abbrev after_frame : Round → CmdPc
after_frame again = CmdPc.testing
after_frame blocked = at_device
after_frame header_lost = CmdPc.gone
after_frame entity_lost = CmdPc.gone
after_frame device_lost = CmdPc.gone

-- A turn of `read_net_cmd_thread`, by where it stands.
pub cmd_turn : (dev_fd : ℤ) → CmdPc → Child → Child
cmd_turn dev_fd CmdPc.testing c = record c {
  cmd_pc = if is_stop c.sys_status then CmdPc.gone else at_header;
}
cmd_turn dev_fd at_header c = record c { cmd_pc = in_header c.socket_fd }
cmd_turn dev_fd (in_header fd) c =
    skip_empty (received 1 0 (in_header fd) at_entity (recv fd c.cmd.socket 1) c)
cmd_turn dev_fd at_entity c = record c { cmd_pc = in_entity c.socket_fd }
cmd_turn dev_fd (in_entity fd) c =
    let len = get_or c.cmd.cmd_cache 0 0 in
    received len 1 (in_entity fd) at_device (recv fd c.cmd.socket len) c
cmd_turn dev_fd at_device c =
    let r = pass_frame dev_fd c.cmd in record c { cmd = r.1; cmd_pc = after_frame r.0 }
cmd_turn dev_fd CmdPc.gone c = c

-- A turn of `send_status_data_thread`, which has its buffer, by where it stands.
pub status_turn : StatusPc → Child → Child
status_turn StatusPc.testing c = record c {
  status_pc = if is_stop c.sys_status then StatusPc.gone else at_read;
}
status_turn at_read c = elim c.status_dev.answers [
  | [] ↦ c
  | a ∷ rest ↦ elim (read a max_read_len_once c.status_dev.pending) [
    | got [] ↦ record c {
      status_dev = record { pending = c.status_dev.pending; answers = rest };
      status_pc = StatusPc.testing;
    }
    | got (b ∷ bs) ↦ record c {
      status_dev = record { pending = drop (length (b ∷ bs)) c.status_dev.pending; answers = rest };
      status_pc = at_send (b ∷ bs);
    }
    | failed e ↦ record c {
      status_dev = record { pending = c.status_dev.pending; answers = rest };
      status_pc = if is_transient e then StatusPc.testing else StatusPc.gone;
    }
  ]
]
status_turn (at_send bs) c = record c { status_pc = in_send c.socket_fd bs }
status_turn (in_send fd bs) c =
    let r = writen fd c.status_socket bs (length bs) in
    elim r.ret [
      | none ↦ record c { status_socket = r.sink }
      | some ret ↦ record c {
        status_socket = r.sink;
        status_pc = StatusPc.testing;
        socket_fd = if ret ==ℤ pos (length bs) then c.socket_fd else minus_one;
      }
    ]
status_turn StatusPc.gone c = c

-- Whose turn it is; SIGINT may come at any time.
pub data Event : Type 0 where
  cmd status sigint : Event

pub turn : (dev_fd : ℤ) → Event → Child → Child
turn dev_fd cmd c = cmd_turn dev_fd c.cmd_pc c
turn dev_fd status c = status_turn c.status_pc c
turn dev_fd sigint c = record c { sys_status = stop }

-- An interleaving, as the sequence of its turns.
pub run : (dev_fd : ℤ) → List Event → Child → Child
run dev_fd [] c = c
run dev_fd (e ∷ events) c = run dev_fd events (turn dev_fd e c)
