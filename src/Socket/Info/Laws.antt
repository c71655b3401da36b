-- ===== src/Socket/Info/Laws.antt =====
-- What `init_socket_info` (private_libary/linux_socket/socket_protocol.c) leaves in its structure, and what
-- linux_net_socket.c prints of it into its arrays.
use itrace.Prelude.{
  none, some, ℕ, zero, suc, ◌+◌, ◌/◌, ◌%◌, ◌^◌, ◌≡◌, ◌≤◌, ◌<◌, refl, sym, ap, ◌∙◌, List, [], ◌∷◌,
  ◌++◌, take, drop, length, arith, length-append, take-append-drop, append_assoc, if◌then◌else◌, ℤ,
  pos, negsuc, to_signed, take-append_left, ◌==◌, Bool, true, false,
}
use itrace.Time.{print_digits}
use itrace.Strings.Case.Laws.{IsString}
use itrace.Strings.Split.Text.{text}
use itrace.Socket.HeadFrame.{bytes_of, word_of}
use itrace.Socket.Info.{
  port_at, desc_at, rsv_at, info_size, put_bytes, with_zeros, init_socket_info, print_int, clt_name,
  srv_name, localhost, socket_desc,
}
use itrace.Socket.Info.Memory.{
  drop-put_bytes, drop-put_bytes_behind, take-put_bytes, length-put_bytes,
}

text-zero : (s rest : List ℕ) → IsString s → text (s ++ 0 ∷ rest) ≡ s
text-zero [] rest h = refl
text-zero (c ∷ s) rest h = ground (arith, text-zero s rest h.1)

text-with_zeros : (s rest : List ℕ) → IsString s → text (with_zeros s ++ rest) ≡ s
text-with_zeros s rest h = ap text (append_assoc s (0 ∷ 0 ∷ []) rest) ∙ text-zero s (0 ∷ rest) h

length-with_zeros : (s : List ℕ) → length (with_zeros s) ≡ length s + 2
length-with_zeros s = length-append s (0 ∷ 0 ∷ [])

-- The structure holds the strings and the number, and the rest of it is as it was.
pub record Describes (ip : List ℕ) (port : ℕ) (desc before info : List ℕ) : Type 0 where
  pub size : length info ≡ length before
  pub address : text info ≡ ip
  pub number : word_of (drop port_at info) ≡ port
  pub described : text (drop desc_at info) ≡ desc
  pub reserved : drop rsv_at info ≡ drop rsv_at before

word_of-bytes_of : (n : ℕ) (rest : List ℕ) → n < 2 ^ 32 → word_of (bytes_of n ++ rest) ≡ n
word_of-bytes_of n rest h = ground arith

init_socket_info-Describes :
    (ip : List ℕ) (port : ℕ) (desc memory : List ℕ)
    → IsString ip
    → IsString desc
    → length ip ≤ 62
    → length desc ≤ 126
    → port < 2 ^ 32
    → length memory ≡ info_size
    → Describes ip port desc memory (init_socket_info ip port desc memory)
unfolding init_socket_info
init_socket_info-Describes ip port desc memory hi hd li ld hp size =
    let a = put_bytes desc_at (with_zeros desc) memory in
    let b = put_bytes 0 (with_zeros ip) a in
    let m = put_bytes port_at (bytes_of port) b in
    let fa : desc_at + length (with_zeros desc) ≤ length memory =
      omega (arith, length-with_zeros desc) in
    let sa = length-put_bytes desc_at (with_zeros desc) memory fa in
    let fb : 0 + length (with_zeros ip) ≤ length a = omega (arith, length-with_zeros ip, sa) in
    let sb = length-put_bytes 0 (with_zeros ip) a fb in
    let fm : port_at + length (bytes_of port) ≤ length b = omega (arith, sa, sb) in
    let short = length-with_zeros ip in
    let n = length (with_zeros ip) in
    record {
      size = length-put_bytes port_at (bytes_of port) b fm ∙ sb ∙ sa;
      address =
          ap text (
            sym (take-append-drop n m)
            ∙ ap (λ l. l ++ drop n m)
                (take-put_bytes port_at (bytes_of port) b fm n (omega arith)
                  ∙ ap (take n) (drop-put_bytes 0 (with_zeros ip) a fb)
                  ∙ take-append_left (with_zeros ip) (drop (0 + n) a)))
          ∙ text-with_zeros ip (drop n m) hi;
      number =
          ap word_of (drop-put_bytes port_at (bytes_of port) b fm)
          ∙ word_of-bytes_of port (drop (port_at + 4) b) hp;
      described =
          ap text (
            drop-put_bytes_behind port_at (bytes_of port) b fm desc_at (omega arith)
            ∙ drop-put_bytes_behind 0 (with_zeros ip) a fb desc_at (omega arith)
            ∙ drop-put_bytes desc_at (with_zeros desc) memory fa)
          ∙ text-with_zeros desc _ hd;
      reserved =
          drop-put_bytes_behind port_at (bytes_of port) b fm rsv_at (omega arith)
          ∙ drop-put_bytes_behind 0 (with_zeros ip) a fb rsv_at (omega arith)
          ∙ drop-put_bytes_behind desc_at (with_zeros desc) memory fa rsv_at
              (omega (arith, length-with_zeros desc));
    }

length-print_digits : (digits n : ℕ) → length (print_digits digits n) ≤ digits
unfolding print_digits
length-print_digits zero n = omega arith
length-print_digits (suc digits) n = ground (
  arith,
  length-print_digits digits (n / 10),
  length-append (print_digits digits (n / 10)) ((0x30 + n % 10) ∷ []),
)

length-print_int : (z : ℤ) → length (print_int z) ≤ 11
unfolding print_int
length-print_int (pos n) = omega (arith, length-print_digits 10 n)
length-print_int (negsuc n) = omega (arith, length-print_digits 10 (suc n))

-- The names stay inside the arrays of 128 bytes that they are printed into.
pub record NamesFit (port : ℕ) (info : List ℕ) : Type 0 where
  pub clt : length (clt_name info) ≤ 128
  pub srv : length (srv_name (to_signed port) (some (text (drop desc_at info)))) ≤ 128
  pub unnamed_srv : length (srv_name (to_signed port) none) ≤ 128
  pub server : length (socket_desc port info) ≤ 128

length-with_address :
    (address number : List ℕ)
    → length address ≤ 62
    → length number ≤ 11
    → length (with_zeros (address ++ (0x3a ∷ (number ++ 0x3a ∷ [])))) ≤ 128
length-with_address address number a n = omega (
  arith,
  length-with_zeros (address ++ (0x3a ∷ (number ++ 0x3a ∷ []))),
  length-append address (0x3a ∷ (number ++ 0x3a ∷ [])),
  length-append number (0x3a ∷ []),
)

one_of :
    (b : Bool) (xs ys : List ℕ)
    → length xs ≤ 128
    → length ys ≤ 128
    → length (if b then xs else ys) ≤ 128
one_of true xs ys h k = h
one_of false xs ys h k = k

names-fit :
    (port : ℕ) (info : List ℕ)
    → length (text info) ≤ 62
    → length (text (drop desc_at info)) ≤ 126
    → NamesFit port info
unfolding clt_name srv_name socket_desc
names-fit port info a d =
    let l = length-with_zeros (text (drop desc_at info)) in
    record {
      clt = omega (arith, l);
      srv = omega (arith, l);
      unnamed_srv = omega (
        arith,
        length-with_zeros (localhost ++ (0x3a ∷ print_int (to_signed port))),
        length-append localhost (0x3a ∷ print_int (to_signed port)),
        length-print_int (to_signed port),
      );
      server =
          one_of (length (text (drop desc_at info)) == 0) _ _
            (length-with_address (text info) (print_int (to_signed port)) a
              (length-print_int (to_signed port)))
            (omega (arith, l));
    }

-- If the address has at most 62 characters and the description at most 126, `init_socket_info` writes inside
-- its structure alone: the address, the port and the description can be read back, `rsv` is untouched; and
-- the names that the client and the two server functions make of it stay inside their arrays.
pub init_socket_info-Describes_fit :
    (ip : List ℕ) (port : ℕ) (desc memory : List ℕ)
    → IsString ip
    → IsString desc
    → length ip ≤ 62
    → length desc ≤ 126
    → port < 2 ^ 32
    → length memory ≡ info_size
    → Describes ip port desc memory (init_socket_info ip port desc memory)
      × NamesFit port (init_socket_info ip port desc memory)
init_socket_info-Describes_fit ip port desc memory hi hd li ld hp size =
    let v = init_socket_info-Describes ip port desc memory hi hd li ld hp size in
    (
      v,
      names-fit port (init_socket_info ip port desc memory) (omega (arith, ap length v.address))
          (omega (arith, ap length v.described)),
    )
