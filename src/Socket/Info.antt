-- ===== src/Socket/Info.antt =====
-- private_libary/linux_socket/socket_protocol.{h,c}: `struct net_socket_info` and `init_socket_info`, and
-- the names that linux_net_socket.c makes of it.
pub mod Memory
pub mod Laws
mod Tests
use itrace.Prelude.{
  ℕ, suc, ◌+◌, ◌==◌, if◌then◌else◌, Option, none, some, List, [], ◌∷◌, ◌++◌, take, drop, length, ℤ,
  pos, negsuc, to_signed,
}
use itrace.Log.{codes}
use itrace.Time.{print_digits}
use itrace.Strings.Split.Text.{text}
use itrace.Socket.HeadFrame.{bytes_of}

-- The structure as its bytes: `ip` at 0, `port` at 64, `desc` at 68 and `rsv` at 196.
abbrev pub port_at : ℕ
port_at = 64

abbrev pub desc_at : ℕ
desc_at = 68

abbrev pub rsv_at : ℕ
rsv_at = 196

-- `sizeof(SocketInfo)`
abbrev pub info_size : ℕ
info_size = 200

-- Bytes written over the memory from `at` on; those past its end stand behind it.
pub put_bytes : (at : ℕ) → (bytes memory : List ℕ) → List ℕ
put_bytes at bytes memory = take at memory ++ (bytes ++ drop (at + length bytes) memory)

-- What `sprintf` writes for "%s%c" with a zero, its terminator included.
abbrev pub with_zeros : List ℕ → List ℕ
with_zeros s = s ++ 0 ∷ 0 ∷ []

pub init_socket_info : (ip : List ℕ) → (port : ℕ) → (socket_desc memory : List ℕ) → List ℕ
init_socket_info ip port socket_desc memory =
    let described = put_bytes desc_at (with_zeros socket_desc) memory in
    let addressed = put_bytes 0 (with_zeros ip) described in
    put_bytes port_at (bytes_of port) addressed

-- `%d`
pub print_int : ℤ → List ℕ
print_int (pos n) = print_digits 10 n
print_int (negsuc n) = 0x2d ∷ print_digits 10 (suc n)

abbrev pub localhost : List ℕ
localhost = codes "localhost"

-- What is written to `clt_name_` by `create_clt_netsock`, whose test of the array `desc` always holds.
pub clt_name : (info : List ℕ) → List ℕ
clt_name info = with_zeros (text (drop desc_at info))

-- What is written to `srv_name` by `create_srv_netsock`: "%s:%d%c" of "localhost" for a null `log_name`.
pub srv_name : (port : ℤ) → (log_name : Option (List ℕ)) → List ℕ
srv_name port none = with_zeros (localhost ++ (0x3a ∷ print_int port))
srv_name port (some log_name) = with_zeros log_name

-- What is written to `socket_desc` by `create_netsock_server`: "%s:%d:%c" if there is no description.
pub socket_desc : (port : ℕ) → (info : List ℕ) → List ℕ
socket_desc port info =
    let desc = text (drop desc_at info) in
    if length desc == 0
    then with_zeros (text info ++ (0x3a ∷ (print_int (to_signed port) ++ 0x3a ∷ [])))
    else with_zeros desc
