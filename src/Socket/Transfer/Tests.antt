-- ===== src/Socket/Transfer/Tests.antt =====
-- `read_data` and `write_data` (private_libary/linux_socket/socket_protocol.c) at concrete inputs.
use itrace.Prelude.{◌≡◌, refl, [], ◌∷◌, some, pos, minus_one, arith}
use itrace.Posix.{Source, Sink, serve, nothing, refuse, eintr, other, read}
use itrace.Socket.Transfer.{read_data, write_data, close_fd}
use itrace.General.{readn}
use itrace.Socket.Transfer.Equivalent.{as_verdict, read_data-readn}
use itrace.Socket.Transfer.Written.{IsWritten, write_data-IsWritten}

abbrev slow : Source
slow = record {
  pending = 1 ∷ 2 ∷ 3 ∷ 4 ∷ [];
  answers = serve 0 ∷ nothing ∷ serve 0 ∷ nothing ∷ nothing ∷ serve 0 ∷ [];
}

abbrev interrupted : Source
interrupted = record { pending = 1 ∷ 2 ∷ []; answers = refuse eintr ∷ serve 5 ∷ [] }

abbrev taking : Sink
taking = record { accepted = []; asked = []; answers = serve 0 ∷ nothing ∷ serve 4 ∷ serve 4 ∷ [] }

-- Unlike `readn`, an interruption ends the call.
read_data-interrupted : (read_data interrupted 2).ret ≡ some minus_one
unfolding read_data read
read_data-interrupted = refl

close_fd_values : close_fd (pos 0 ∷ pos 7 ∷ minus_one ∷ []) ≡ pos 0 ∷ minus_one ∷ minus_one ∷ []
unfolding close_fd
close_fd_values = refl

write_data-IsWritten_example :
    IsWritten 2 (1 ∷ 2 ∷ 3 ∷ []) [] (write_data taking (1 ∷ 2 ∷ 3 ∷ []) 2)
write_data-IsWritten_example = write_data-IsWritten taking (1 ∷ 2 ∷ 3 ∷ []) 2

-- An error of the kernel comes before the third byte.
abbrev broken : Source
broken = record { pending = 1 ∷ 2 ∷ 3 ∷ 4 ∷ []; answers = serve 1 ∷ refuse other ∷ [] }

read_data-readn_example :
    ((read_data broken 3).ret ≡ as_verdict 3 (readn broken 3).ret)
    × ((read_data broken 3).stored ≡ (readn broken 3).stored)
    × ((read_data broken 3).left ≡ (readn broken 3).left)
read_data-readn_example = read_data-readn broken 3 (omega arith) tt (omega arith)
