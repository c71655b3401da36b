-- ===== src/Server.antt =====
-- cmd_status_trans/server.c and acq_data_trans/server.c: `create_cmd_status_trans_server` and
-- `create_acq_data_trans_server` from their first line to their last: the branch of a SPM, the listening socket,
-- the loop of the parent, and the set-up of a child.
pub mod Errors
pub mod Main
mod Tests
use itrace.Prelude.{ℕ, List, Option, none, some, Bool, if◌then◌else◌, ℤ, is_neg}
use itrace.Posix.{Sink}
use itrace.General.{Sent}
use itrace.Socket.Server.{create_srv_netsock}
use itrace.Lifecycle.Sources.{ProcSource, cmd_parent_source, acq_parent_source}
use itrace.Lifecycle.{
  Turn, Parent, Next, accept_again, exit_close, child, waiting, serve, parent_start,
}
use itrace.Cmd
use itrace.Cmd.Setup.{write_ip}
use itrace.Acq

-- What `socket`, the calls of `bind` and the first `listen` give, what happens at `ACCEPT_AGAIN`, and the
-- descriptor of the client that the last turn has accepted.
pub record Calls : Type 0 where
  pub socket : ℤ
  pub binds : List Bool
  pub listens : Bool
  pub turns : List Turn
  pub conn_fd : ℤ

-- How the creation of the listening socket ends.
pub data Listening : Type 0 where
  no_socket : Listening  -- "creat server net socket failed. exit..."
  binding : Listening  -- in the loop of `bind`
  no_listen : Listening  -- "listen failed. exit..."
  listening : (listen_fd : ℤ) → Listening

pub create_listen : Calls → Listening
create_listen c = elim (create_srv_netsock c.socket c.binds).ret [
  | none ↦ binding
  | some listen_fd ↦
      if is_neg listen_fd then no_socket else if c.listens then listening listen_fd else no_listen
]

-- Where the process stands: it does not serve, it is the parent, or it is a child whose set-up has come
-- to `C`.
pub data Server {ℓ} (C : Type ℓ) : Type ℓ where
  not_serving : Listening → Server C
  parent : Next → Parent → Server C
  in_child : Parent → C → Server C

abbrev after_serve {ℓ} : {C : Type ℓ} → C → Next → Parent → Server C
after_serve set_up child p = in_child p set_up
after_serve set_up n p = parent n p

-- The code that the two servers share; `fill` makes the parent's source and `set_up` is the child's.
pub create_server {ℓ} :
    {C : Type ℓ} → (ℤ → ℤ → ProcSource) → Calls → (set_up : C) → Listening → Server C
create_server fill c set_up (listening listen_fd) =
    let (next, p) = serve fill c.turns (parent_start listen_fd) in after_serve set_up next p
create_server fill c set_up l = not_serving l

pub create_acq_data_trans_server : Calls → Acq.Setup.Calls → Server Acq.Setup.Child
create_acq_data_trans_server c calls =
    create_server acq_parent_source c (Acq.Setup.set_up_child c.conn_fd calls) (create_listen c)

-- That of cmd_status_trans: a SPM, whose process exits, has the transfer of the address if the device was
-- opened.
pub data CmdServer : Type 0 where
  spm : Option Sent → CmdServer
  scm : Server (List Cmd.Setup.Effect) → CmdServer

-- `spm_opened` is what `open` gives a SPM.
pub create_cmd_status_trans_server :
    (rsv : ℕ) → (spm_opened : ℤ) → Sink → Calls → Cmd.Setup.Calls → CmdServer
create_cmd_status_trans_server rsv spm_opened dev c calls = elim (write_ip rsv spm_opened dev) [
  | some sent ↦ spm sent
  | none ↦
      scm (
        create_server cmd_parent_source c (Cmd.Setup.set_up_child c.conn_fd calls)
          (create_listen c))
]
