-- ===== src/Socket/HeadFrame.antt =====
-- private_libary/linux_socket/socket_protocol.{h,c}: the head frame of a message, as the bytes of a
-- `struct head_frame_st` on the little-endian target.
pub mod Roundtrip
mod Tests
use itrace.Prelude.{ℕ, ◌+◌, ◌*◌, ◌/◌, ◌%◌, ◌^◌, List, [], ◌∷◌, ◌++◌, Option, ℤ, get_or, drop}
use itrace.Posix.{Source}
use itrace.General.{Received}
use itrace.Socket.Transfer.{read_data}

pub record HeadFrame : Type 0 where
  pub id : ℕ
  pub len : ℕ
  pub flag : ℕ
  pub res : ℕ

-- The four bytes of an `unsigned int`, the lowest first.
abbrev pub bytes_of : ℕ → List ℕ
bytes_of n = (n % 256) ∷ (n / 256 % 256) ∷ (n / 65536 % 256) ∷ (n / 16777216 % 256) ∷ []

abbrev pub word_of : List ℕ → ℕ
word_of bs = get_or bs 0 0 + 256 * get_or bs 1 0 + 65536 * get_or bs 2 0 + 16777216 * get_or bs 3 0

-- `sizeof(HeadFrame)`
abbrev pub head_frame_size : ℕ
head_frame_size = 16

pub to_bytes : HeadFrame → List ℕ
to_bytes hf = bytes_of hf.id ++ (bytes_of hf.len ++ (bytes_of hf.flag ++ bytes_of hf.res))

pub of_bytes : List ℕ → HeadFrame
of_bytes bs = record {
  id = word_of bs;
  len = word_of (drop 4 bs);
  flag = word_of (drop 8 bs);
  res = word_of (drop 12 bs);
}

pub init_head_frame : (id flag res len : ℕ) → HeadFrame
init_head_frame id flag res len = record {
  flag = flag % 2 ^ 32;
  id = id % 2 ^ 32;
  res = res % 2 ^ 32;
  len = len % 2 ^ 32;
}

-- The result of `read_head_frame`, what `*hf` holds after it, and the source left.
pub record HeadRead : Type 0 where
  pub ret : Option ℤ
  pub hf : HeadFrame
  pub left : Source

pub read_head_frame : Source → HeadRead
read_head_frame s =
    let r = read_data s head_frame_size in
    record { ret = r.ret; hf = of_bytes r.stored; left = r.left }
