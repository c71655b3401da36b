-- ===== src/Cmd/Status.antt =====
-- cmd_status_trans/server.c, `send_status_data_thread`: status data read from the device is sent to
-- the client; once a transfer has failed, it is read and dropped.
pub mod Laws
pub mod Live
mod Tests
use itrace.Prelude.{
  ℕ, List, [], ◌∷◌, Option, none, some, Bool, true, false, if◌then◌else◌, drop, length, ℤ, pos,
  minus_one, ◌==ℤ◌,
}
use itrace.Posix.{Source, Sink, read, got, failed, is_transient}
use itrace.General.{SystemStatus, running, stop, writen}

-- `max_read_len_once`
abbrev pub max_read_len_once : ℕ
max_read_len_once = 0x1000

pub record StatusThread : Type 0 where
  pub dev : Source
  pub socket_fd : ℤ
  pub socket : Sink

pub data Round : Type 0 where
  again : Round
  device_lost : Round  -- "read status data from device failed"
  waiting : Round  -- in `read` of the device
  blocked : Round  -- in `write` to the client

-- `bs` has been read, and is not empty.
unfoldable pub send_status : List ℕ → StatusThread → Round × StatusThread
send_status bs t =
    let r = writen t.socket_fd t.socket bs (length bs) in
    elim r.ret [
      | none ↦ (blocked, record t { socket = r.sink })
      | some ret ↦
          if ret ==ℤ pos (length bs)
          then (again, record t { socket = r.sink })
          else (again, record t { socket = r.sink; socket_fd = minus_one })
    ]

unfoldable pub read_status : StatusThread → Round × StatusThread
read_status t = elim t.dev.answers [
  | [] ↦ (waiting, t)
  | a ∷ rest ↦ elim (read a max_read_len_once t.dev.pending) [
    | got [] ↦ (again, record t { dev = record { pending = t.dev.pending; answers = rest } })
    | got (b ∷ bs) ↦ send_status (b ∷ bs) (record t {
      dev = record { pending = drop (length (b ∷ bs)) t.dev.pending; answers = rest };
    })
    | failed e ↦ (
      if is_transient e then again else device_lost,
      record t { dev = record { pending = t.dev.pending; answers = rest } },
    )
  ]
]

pub data Outcome : Type 0 where
  no_memory : Outcome
  looping : Outcome
  stopped : Outcome
  left : Round → Outcome

unfoldable pub status_loop : List SystemStatus → StatusThread → Outcome × StatusThread
status_loop [] t = (looping, t)
status_loop (stop ∷ readings) t = (stopped, t)
status_loop (running ∷ readings) t =
    let (round, t') = read_status t in
    elim round [ again ↦ status_loop readings t' | r ↦ (left r, t') ]

-- `allocated` says whether `malloc` of `status_buf` succeeds.
pub send_status_data_thread :
    (allocated : Bool) → List SystemStatus → StatusThread → Outcome × StatusThread
send_status_data_thread allocated readings t =
    if allocated then status_loop readings t else (no_memory, t)
