-- ===== src/Cmd/Device.antt =====
-- cmd_status_trans/server.c, `writen_to_cmd_status_dev`: a transfer in pieces that the device takes.
pub mod Laws
pub mod Fault
mod Tests
use itrace.Prelude.{
  ℕ, zero, suc, ◌+◌, ◌-◌, List, [], ◌∷◌, ◌++◌, Option, none, some, Bool, true, false, ltb,
  if◌then◌else◌, drop, ℤ, pos, ◌==ℤ◌,
}
use itrace.Posix.{Sink}
use itrace.General.{Sent, writen}

-- `max_write_len_once`
abbrev pub max_write_len_once : ℕ
max_write_len_once = 0x1000

-- `write_len`
pub piece : ℕ → ℕ
piece left_len = if ltb max_write_len_once left_len then max_write_len_once else left_len

-- The `while (left_len > 0)` loop. Each round moves at least one byte, so that `len + 1` rounds are
-- enough.
pub write_pieces : (fuel : ℕ) → ℤ → (buffer : List ℕ) → (len left_len : ℕ) → Sink → Sent
write_pieces zero fd buffer len left_len s = record { ret = none; sink = s }
write_pieces (suc fuel) fd buffer len left_len s = elim (ltb 0 left_len) [
  | true ↦
      let write_len = piece left_len in
      let r = writen fd s (drop (len - left_len) buffer) write_len in
      elim r.ret [
        | none ↦ record { ret = none; sink = r.sink }
        | some ret ↦ elim (ret ==ℤ pos write_len) [
          | true ↦ write_pieces fuel fd buffer len (left_len - write_len) r.sink
          | false ↦ record { ret = some (pos (len - left_len)); sink = r.sink }
        ]
      ]
  | false ↦ record { ret = some (pos len); sink = s }
]

pub writen_to_cmd_status_dev : ℤ → Sink → (buffer : List ℕ) → (len : ℕ) → Sent
unfolding write_pieces
writen_to_cmd_status_dev fd s buffer len = write_pieces (len + 1) fd buffer len len s
