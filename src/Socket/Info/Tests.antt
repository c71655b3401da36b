-- ===== src/Socket/Info/Tests.antt =====
-- `init_socket_info` (private_libary/linux_socket/socket_protocol.c) and the names at concrete strings.
use itrace.Prelude.{◌≡◌, refl, [], ◌∷◌, take, drop, replicate, arith}
use itrace.Socket.Info.{info_size, init_socket_info, put_bytes, socket_desc, print_int}
use itrace.Time.{print_digits}
use itrace.Socket.Info.Laws.{Describes, NamesFit, init_socket_info-Describes_fit}

-- A description of 127 characters reaches into `rsv`.
too_long :
    take 3
      (drop 195 (init_socket_info (0x41 ∷ []) 9100 (replicate 127 0x42) (replicate info_size 7)))
    ≡ 0 ∷ 0 ∷ 7 ∷ []
unfolding init_socket_info put_bytes
too_long = refl

-- "A:9100:" where there is no description
named_by_address :
    socket_desc 9100 (init_socket_info (0x41 ∷ []) 9100 [] (replicate info_size 7))
    ≡ 0x41 ∷ 0x3a ∷ 0x39 ∷ 0x31 ∷ 0x30 ∷ 0x30 ∷ 0x3a ∷ 0 ∷ 0 ∷ []
unfolding init_socket_info put_bytes socket_desc print_int print_digits
named_by_address = refl

init_socket_info-Describes_fit_example :
    Describes
      (0x41 ∷ 0x42 ∷ [])
      9100
      (0x43 ∷ [])
      (replicate info_size 7)
      (init_socket_info (0x41 ∷ 0x42 ∷ []) 9100 (0x43 ∷ []) (replicate info_size 7))
    × NamesFit 9100 (init_socket_info (0x41 ∷ 0x42 ∷ []) 9100 (0x43 ∷ []) (replicate info_size 7))
init_socket_info-Describes_fit_example =
    init_socket_info-Describes_fit (0x41 ∷ 0x42 ∷ []) 9100 (0x43 ∷ []) (replicate info_size 7)
      (omega arith, (omega arith, tt)) (omega arith, tt) (omega arith) (omega arith) (omega arith)
      refl
