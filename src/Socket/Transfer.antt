-- ===== src/Socket/Transfer.antt =====
-- private_libary/linux_socket/socket_protocol.c: `read_data`, `write_data` and `close_fd`.
pub mod Equivalent
pub mod Laws
pub mod Onward
pub mod Patience
pub mod Written
mod Tests
use itrace.Prelude.{
  ℕ, zero, suc, ◌+◌, ◌-◌, List, [], ◌∷◌, ◌++◌, map, Option, none, some, Bool, true, false, ltb,
  ◌==◌, if◌then◌else◌, length, take, drop, ℤ, pos, negsuc, minus_one,
}
use itrace.Posix.{Answer, Source, Sink, read, got, failed, write, wrote, refused}
use itrace.General.{Received, Sent}

-- After more than this many empty transfers in a row the loops give up.
abbrev pub max_empty : ℕ
max_empty = 10

-- `if(left_len == 0) return 1; else return -1;`
abbrev verdict : ℕ → ℤ
verdict left_len = if left_len == 0 then pos 1 else minus_one

-- The loop of `read_data`; `count` is `max_read_count`.
pub read_data_loop : (left_len count : ℕ) → (stored pending : List ℕ) → List Answer → Received
read_data_loop left_len count stored pending [] = record {
  ret = if left_len == 0 then some (verdict left_len) else none;
  stored = stored;
  left = record { pending = pending; answers = [] };
}
read_data_loop left_len count stored pending (a ∷ r) = elim (left_len == 0) [
  | true ↦ record {
    ret = some (verdict left_len);
    stored = stored;
    left = record { pending = pending; answers = a ∷ r };
  }
  | false ↦ elim (read a left_len pending) [
    | got (b ∷ bs) ↦
        let n = suc (length bs) in
        read_data_loop (left_len - n) 0 (stored ++ b ∷ bs) (drop n pending) r
    | got [] ↦ elim (ltb max_empty (count + 1)) [
      | true ↦ record {
        ret = some (verdict left_len);
        stored = stored;
        left = record { pending = pending; answers = r };
      }
      | false ↦ read_data_loop left_len (count + 1) stored pending r
    ]
    | failed e ↦ record {
      ret = some (verdict left_len);
      stored = stored;
      left = record { pending = pending; answers = r };
    }
  ]
]

pub read_data : Source → (max_buf_len : ℕ) → Received
unfolding read_data_loop
read_data s max_buf_len = read_data_loop max_buf_len 0 [] s.pending s.answers

-- The loop of `write_data`.
pub write_data_loop : (left_len count : ℕ) → (ahead accepted asked : List ℕ) → List Answer → Sent
write_data_loop left_len count ahead accepted asked [] = record {
  ret = if left_len == 0 then some (verdict left_len) else none;
  sink = record { accepted = accepted; asked = asked; answers = [] };
}
write_data_loop left_len count ahead accepted asked (a ∷ r) = elim (left_len == 0) [
  | true ↦ record {
    ret = some (verdict left_len);
    sink = record { accepted = accepted; asked = asked; answers = a ∷ r };
  }
  | false ↦ elim (write a left_len) [
    | wrote (suc k) ↦
        write_data_loop (left_len - suc k) 0 (drop (suc k) ahead) (accepted ++ take (suc k) ahead)
          (left_len ∷ asked) r
    | wrote zero ↦ elim (ltb max_empty (count + 1)) [
      | true ↦ record {
        ret = some (verdict left_len);
        sink = record { accepted = accepted; asked = left_len ∷ asked; answers = r };
      }
      | false ↦ write_data_loop left_len (count + 1) ahead accepted (left_len ∷ asked) r
    ]
    | refused e ↦ record {
      ret = some (verdict left_len);
      sink = record { accepted = accepted; asked = left_len ∷ asked; answers = r };
    }
  ]
]

pub write_data : Sink → (buffer : List ℕ) → (buf_len : ℕ) → Sent
unfolding write_data_loop
write_data s buffer buf_len = write_data_loop buf_len 0 buffer s.accepted s.asked s.answers

-- `close_fd` of the descriptors that its arguments point to: the `close` is commented out in the
-- source, so that only the variables change.
pub close_fd : List ℤ → List ℤ
close_fd = map forget
  where
    forget : ℤ → ℤ
    forget (pos zero) = pos zero
    forget (pos (suc n)) = minus_one
    forget (negsuc n) = minus_one
