-- ===== src/Socket/Info/Memory.antt =====
-- Bytes written over a memory, as `init_socket_info` (private_libary/linux_socket/socket_protocol.c) does.
use itrace.Prelude.{
  ℕ, ◌+◌, ◌-◌, ◌≡◌, ◌≤◌, sym, ap, ◌∙◌, List, ◌++◌, take, drop, length, arith, length-append,
  length-take, length-drop, drop-append_left, drop-drop, take-append_of_le, take-take_of_le,
}
use itrace.Socket.Info.{put_bytes}

module _ (at : ℕ) (bytes memory : List ℕ) (fits : at + length bytes ≤ length memory) where
  long : length (take at memory) ≡ at
  long = omega (arith, length-take at memory)

  pub drop-put_bytes :
      drop at (put_bytes at bytes memory) ≡ bytes ++ drop (at + length bytes) memory
  unfolding put_bytes
  drop-put_bytes =
      ap (λ n. drop n (take at memory ++ (bytes ++ drop (at + length bytes) memory))) (sym long)
      ∙ drop-append_left (take at memory) (bytes ++ drop (at + length bytes) memory)

  pub drop-put_bytes_behind :
      (n : ℕ) → at + length bytes ≤ n → drop n (put_bytes at bytes memory) ≡ drop n memory
  drop-put_bytes_behind n le =
      let k = n - (at + length bytes) in
      ap (λ m. drop m (put_bytes at bytes memory)) (apart n le)
      ∙ sym (drop-drop at (length bytes + k) (put_bytes at bytes memory))
      ∙ ap (drop (length bytes + k)) drop-put_bytes
      ∙ sym (drop-drop (length bytes) k (bytes ++ drop (at + length bytes) memory))
      ∙ ap (drop k) (drop-append_left bytes (drop (at + length bytes) memory))
      ∙ drop-drop (at + length bytes) k memory
      ∙ ap (λ m. drop m memory) (together n le)
    where
      apart : (n : ℕ) → at + length bytes ≤ n → n ≡ at + (length bytes + (n - (at + length bytes)))
      apart n le = omega arith

      together : (n : ℕ) → at + length bytes ≤ n → at + length bytes + (n - (at + length bytes)) ≡ n
      together n le = omega arith

  pub take-put_bytes : (n : ℕ) → n ≤ at → take n (put_bytes at bytes memory) ≡ take n memory
  unfolding put_bytes
  take-put_bytes n le =
      take-append_of_le n (take at memory) (bytes ++ drop (at + length bytes) memory)
        (omega (arith, long))
      ∙ take-take_of_le n at memory le

  pub length-put_bytes : length (put_bytes at bytes memory) ≡ length memory
  unfolding put_bytes
  length-put_bytes = omega (
    arith,
    long,
    length-append (take at memory) (bytes ++ drop (at + length bytes) memory),
    length-append bytes (drop (at + length bytes) memory),
    length-drop (at + length bytes) memory,
  )
