-- ===== src/Cmd/Setup.antt =====
-- cmd_status_trans/server.c: what a child process does before its threads run, in
-- `create_cmd_status_trans_server`, with `open_cmd_status_device`; and what a SPM does there in
-- place of serving.
pub mod Laws
mod Tests
use itrace.Prelude.{
  ℕ, ◌≤◌, ◌%◌, leb, List, [], ◌∷◌, ◌++◌, Option, none, some, Bool, true, false, not, if◌then◌else◌,
  ℤ, pos, minus_one, is_pos, is_neg, length,
}
use itrace.Posix.{Sink}
use itrace.General.{Sent}
use itrace.Lifecycle.Sources.{ProcSource, cmd_child_source}
use itrace.Cmd.Device.{writen_to_cmd_status_dev}

-- `struct CmdStatusRWThreadParams`
pub record Params : Type 0 where
  pub dev_fd : ℤ
  pub socket_fd : ℤ

pub data Effect : Type 0 where
  soft_reset : ℤ → Effect  -- `ioctl(cmd_status_fd, CSR_SET_SOFT_RESET, 0)`
  start_reader : Params → Effect  -- `read_net_cmd_thread`
  start_sender : Params → Effect  -- `send_status_data_thread`
  start_clear : ProcSource → Effect

-- What `open` and the three `pthread_create` give.
pub record Calls : Type 0 where
  pub opened : ℤ
  pub reader_created : Bool
  pub sender_created : Bool
  pub clear_created : Bool

-- The descriptor, and what is done to the device.
unfoldable pub open_cmd_status_device : ℤ → ℤ × List Effect
open_cmd_status_device opened =
    if is_pos opened then (opened, soft_reset opened ∷ []) else (minus_one, [])

-- By whether the threads are created.
pub start_threads :
    (cmd_status_fd conn_fd : ℤ) → (reader_created sender_created clear_created : Bool) → List Effect
start_threads cmd_status_fd conn_fd reader_created sender_created clear_created =
    let params : Params = record { dev_fd = cmd_status_fd; socket_fd = conn_fd } in
    if not reader_created
    then []
    else if not sender_created
    then start_reader params ∷ []
    else start_reader params
      ∷ start_sender params
      ∷ (if clear_created then start_clear (cmd_child_source cmd_status_fd conn_fd) ∷ [] else [])

-- The child, by what `open` returns; every way ends at `Exit`, and the process lives on.
pub set_up_from : (conn_fd : ℤ) → Calls → (opened : ℤ) → List Effect
set_up_from conn_fd c opened =
    let (cmd_status_fd, opening) = open_cmd_status_device opened in
    if is_neg cmd_status_fd
    then opening
    else opening
      ++ start_threads cmd_status_fd conn_fd c.reader_created c.sender_created c.clear_created

pub set_up_child : (conn_fd : ℤ) → Calls → List Effect
set_up_child conn_fd c = set_up_from conn_fd c c.opened

-- The source of the clear thread, if it has been started.
abbrev pub clear_source : List Effect → Option ProcSource
clear_source [] = none
clear_source (start_clear sour ∷ effects) = some sour
clear_source (e ∷ effects) = clear_source effects

-- `SPM_START_IP`
abbrev spm_start_ip : ℕ
spm_start_ip = 101

-- `ip_write_cmd`
unfoldable pub ip_write_cmd : (rsv : ℕ) → List ℕ
ip_write_cmd rsv =
    0x16
    ∷ 0x20
    ∷ 0x00
    ∷ 0x00
    ∷ 0x00
    ∷ 0x00
    ∷ 0x00
    ∷ 0xff
    ∷ 0xfd
    ∷ 0x0c
    ∷ 0x00
    ∷ 0x00
    ∷ 0x00
    ∷ 0x08
    ∷ 0xb4
    ∷ 0x00
    ∷ 0x00
    ∷ rsv % 256
    ∷ 0x00
    ∷ 0x00
    ∷ 0x00
    ∷ 0x00
    ∷ 0x00
    ∷ []

-- "check is spm or scm": a SPM only writes its address to the device, and the process exits; `none`
-- for a process that goes on to listen. The result of the transfer is only printed.
unfoldable pub write_ip : (rsv : ℕ) → (opened : ℤ) → Sink → Option (Option Sent)
write_ip rsv opened s =
    if leb spm_start_ip rsv
    then some (
        let (cmd_status_fd, opening) = open_cmd_status_device opened in
        if is_pos cmd_status_fd
        then some (
            writen_to_cmd_status_dev cmd_status_fd s (ip_write_cmd rsv) (length (ip_write_cmd rsv)))
        else none)
    else none
