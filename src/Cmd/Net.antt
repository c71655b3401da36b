-- ===== src/Cmd/Net.antt =====
-- cmd_status_trans/server.c, `read_net_cmd_thread` and `reset_hardware`: frames of one length byte
-- and that many bytes of entity are read from the client's socket and passed on to the device.
pub mod Frames
pub mod Safety
mod Tests
use itrace.Prelude.{
  ℕ, zero, suc, ◌+◌, List, [], ◌∷◌, ◌++◌, Option, none, some, Bool, true, false, ◌&&◌, ltb, ◌==◌,
  if◌then◌else◌, get_or, take, drop, length, ℤ, pos, ◌==ℤ◌,
}
use itrace.Posix.{Source, Sink}
use itrace.General.{SystemStatus, running, stop, readn}
use itrace.Cmd.Device.{writen_to_cmd_status_dev}

-- The thread's view of the world: the socket, the device, the values written to the device's
-- control register by `ioctl`, and `cmd_cache`.
pub record CmdThread : Type 0 where
  pub socket : Source
  pub dev : Sink
  pub ctrl : List ℕ
  pub cmd_cache : List ℕ

-- The bytes `bs` stored at `cmd_cache + at`; bytes past the end of the array would lengthen it.
abbrev pub store : (at : ℕ) → (bs cache : List ℕ) → List ℕ
store at bs cache = take at cache ++ (bs ++ drop (at + length bs) cache)

abbrev pub reset_frame : List ℕ
reset_frame = 0x0a ∷ 0x53 ∷ 0xf8 ∷ 0x00 ∷ 0x00 ∷ 0x00 ∷ 0x00 ∷ 0xff ∷ 0xfe ∷ 0x00 ∷ 0x00 ∷ []

-- Whether `strncmp(xs, ys, n)` is not 0.
strncmp : (xs ys : List ℕ) → (n : ℕ) → Bool
strncmp xs ys zero = false
strncmp [] ys (suc n) = false
strncmp (x ∷ xs) [] (suc n) = false
strncmp (x ∷ xs) (y ∷ ys) (suc n) =
    let rest = strncmp xs ys n in if x == y then (if x == 0 then false else rest) else true

-- `sizeof(reset_frame) == 0`, which the source passes to `strncmp` as the count.
abbrev compared : ℕ
compared = if length reset_frame == 0 then 1 else 0

pub is_reset : List ℕ → Bool
unfolding strncmp
is_reset cache = (get_or cache 0 0 == 0x0a) && strncmp reset_frame cache compared

-- `reset_hardware`
abbrev pub reset_hardware : CmdThread → CmdThread
reset_hardware t = record t { ctrl = t.ctrl ++ 1 ∷ 0 ∷ [] }

-- How one round of the loop ends: with the next test of the status, out of the loop (and for which
-- of the three failures), or in a call that blocks.
pub data Round : Type 0 where
  again : Round
  header_lost : Round  -- "read cmd data from net failed"
  entity_lost : Round  -- "read cmd entity data from net failed"
  device_lost : Round  -- "write data to cmd device failed"
  blocked : Round

-- A whole frame is in the cache.
pub pass_frame : ℤ → CmdThread → Round × CmdThread
pass_frame dev_fd t =
    if is_reset t.cmd_cache
    then (again, reset_hardware t)
    else (let len = get_or t.cmd_cache 0 0 + 1 in
        let r = writen_to_cmd_status_dev dev_fd t.dev t.cmd_cache len in
        let t' : CmdThread = record t { dev = r.sink } in
        elim r.ret [
          | none ↦ (blocked, t')
          | some ret ↦ (if ret ==ℤ pos len then again else device_lost, t')
        ])

-- The length byte is in the cache.
unfoldable pub read_entity : ℤ → CmdThread → Round × CmdThread
read_entity dev_fd t =
    let len = get_or t.cmd_cache 0 0 in
    let r = readn t.socket len in
    let t' : CmdThread = record t { socket = r.left; cmd_cache = store 1 r.stored t.cmd_cache } in
    elim r.ret [
      | none ↦ (blocked, t')
      | some ret ↦ if ret ==ℤ pos len then pass_frame dev_fd t' else (entity_lost, t')
    ]

unfoldable pub read_frame : ℤ → CmdThread → Round × CmdThread
read_frame dev_fd t =
    let r = readn t.socket 1 in
    let t' : CmdThread = record t { socket = r.left; cmd_cache = store 0 r.stored t.cmd_cache } in
    elim r.ret [
      | none ↦ (blocked, t')
      | some ret ↦
          if ret ==ℤ pos 1
          then (if ltb (get_or t'.cmd_cache 0 0) 1 then (again, t') else read_entity dev_fd t')
          else (header_lost, t')
    ]

-- How the thread stands when the readings of the status are used up, or earlier.
pub data Outcome : Type 0 where
  looping : Outcome
  stopped : Outcome
  left : Round → Outcome

-- The loop, over the values that the tests of `*(params->sys_status)` read.
unfoldable pub read_net_cmd_thread : List SystemStatus → ℤ → CmdThread → Outcome × CmdThread
read_net_cmd_thread [] dev_fd t = (looping, t)
read_net_cmd_thread (stop ∷ readings) dev_fd t = (stopped, t)
read_net_cmd_thread (running ∷ readings) dev_fd t =
    let (round, t') = read_frame dev_fd t in
    elim round [ again ↦ read_net_cmd_thread readings dev_fd t' | r ↦ (left r, t') ]

-- The thread at its start: the cache is zero.
abbrev pub cache_size : ℕ
cache_size = 512
