-- ===== src/Serial/Demo/Laws.antt =====
-- What private_libary/linux_serial_port/main.c sets its port to, and what its thread prints.
use itrace.Prelude.{
  ℕ, zero, suc, ◌+◌, ◌*◌, ◌≡◌, ◌≢◌, refl, sym, ap, ◌∙◌, List, [], ◌∷◌, Bool, true, false, not, some,
  ℤ, pos, is_neg, Bool-cases, inl, inr, drop, take, negsuc, arith,
}
use itrace.Posix.{Answer, serve, nothing, refuse, Source}
use itrace.Posix.Reliable.{serves}
use itrace.Posix.Calls.{read-serve_nil, read-serve_cons, read-nothing, read-refuse}
use itrace.Thread
use itrace.Thread.{create_detached_pthread, create_detached_pthread-thread}
use itrace.Serial.Desc.{Speed, b9600, lookup, get_baud_rate_from_desc}
use itrace.Serial.Desc.Rates.{IsRateOf, rate_of-found}
use itrace.Serial.Flags.{cstopb, parenb}
use itrace.Serial.Settings.{Termios, set_serial_port_attr}
use itrace.Serial.Settings.Fields.{IsSpeedOf, IsSizeOf, to_nat}
use itrace.Serial.Settings.Laws.{IsConfigured, set_serial_port_attr-IsConfigured}
use itrace.Serial.Demo.{
  spp, Demo, no_port, no_flags, no_thread, looping, main, print_loop, read_port,
}

-- 9600 baud, 8 data bits, one stop bit and no parity.
pub record Is9600 (t : Termios) : Type 0 where
  pub ispeed : t.ispeed ≡ some b9600
  pub ospeed : t.ospeed ≡ some b9600
  pub size : (t.c_cflag 4 ≡ true) × (t.c_cflag 5 ≡ true)
  pub stop : t.c_cflag cstopb ≡ false
  pub parity : t.c_cflag parenb ≡ false

speed-b9600 : (v : Speed) → IsRateOf 9600 v → some v ≡ some b9600
unfolding get_baud_rate_from_desc lookup
speed-b9600 v (inl e) = sym (rate_of-found v) ∙ ap get_baud_rate_from_desc e
speed-b9600 v (inr e) = ground arith

IsSpeedOf-b9600 :
    (old new : Termios)
    → IsSpeedOf 9600 old new
    → (new.ispeed ≡ some b9600) × (new.ospeed ≡ some b9600)
IsSpeedOf-b9600 old new (inl (v, named, ispeed, ospeed, bits)) =
    (ispeed ∙ speed-b9600 v named, ospeed ∙ speed-b9600 v named)
IsSpeedOf-b9600 old new (inr (none_named, ispeed, ospeed, bits)) = absurd (none_named b9600 refl)

-- Eight data bits
size-cs8 : (x y : Bool) → 8 ≡ 5 + (to_nat x + 2 * to_nat y) → (x ≡ true) × (y ≡ true)
size-cs8 x y e = ground arith

IsSizeOf-cs8 :
    (old new : Termios) → IsSizeOf 8 old new → (new.c_cflag 4 ≡ true) × (new.c_cflag 5 ≡ true)
IsSizeOf-cs8 old new (inl (small, e)) = size-cs8 (new.c_cflag 4) (new.c_cflag 5) e
IsSizeOf-cs8 old new (inr v) = ground arith

IsConfigured-Is9600 : (old new : Termios) → IsConfigured spp old new → Is9600 new
IsConfigured-Is9600 old new c =
    let (ispeed, ospeed) = IsSpeedOf-b9600 old new c.speed in
    record {
      ispeed = ispeed;
      ospeed = ospeed;
      size = IsSizeOf-cs8 old new c.size;
      stop = ground (arith, c.two_stop_bits);
      parity = ground (arith, c.parity);
    }

-- Where `main` comes to depends on its calls, and the settings that it hands over.
abbrev pub SetUp : (opened fcntl : ℤ) → (accepts : Bool) → Thread.Calls → Demo → Type 0
SetUp opened fcntl accepts calls no_port = is_neg opened ≡ true
SetUp opened fcntl accepts calls (no_flags closed) =
    (is_neg opened ≡ false) × (is_neg fcntl ≡ true) × (closed ≡ true)
SetUp opened fcntl accepts calls (no_thread applied) =
    (is_neg opened ≡ false)
    × (is_neg fcntl ≡ false)
    × ((create_detached_pthread calls).thread ≡ false)
    × (new : Termios) × (applied.new_attr ≡ some new)
    × Is9600 new
    × (applied.closed ≡ not accepts)
SetUp opened fcntl accepts calls (looping applied) =
    (is_neg opened ≡ false)
    × (is_neg fcntl ≡ false)
    × ((create_detached_pthread calls).thread ≡ true)
    × (new : Termios) × (applied.new_attr ≡ some new)
    × Is9600 new
    × (applied.closed ≡ not accepts)

settings-Is9600 :
    (opened : ℤ) (current : Termios) (accepts : Bool)
    → is_neg opened ≡ false
    → let applied = set_serial_port_attr opened spp false current accepts in
      (new : Termios) × (applied.new_attr ≡ some new) × Is9600 new × (applied.closed ≡ not accepts)
settings-Is9600 opened current accepts e =
    let v = set_serial_port_attr-IsConfigured opened spp false current accepts in
    (v.0, ground (arith, v.2), IsConfigured-Is9600 current v.0 v.1, ground (arith, v.4))

-- For any results of its calls, `main` has no port exactly where `open` fails, and closes an open port exactly
-- where `fcntl` fails; otherwise it hands over the settings of 9600 baud, 8 data bits, one stop bit and no
-- parity, and comes to its loop exactly with its thread running, also where `tcsetattr` has refused the
-- settings and the port has been closed.
pub main-SetUp :
    (opened fcntl : ℤ) (current : Termios) (accepts : Bool) (calls : Thread.Calls)
    → SetUp opened fcntl accepts calls (main opened fcntl current accepts calls)
unfolding main
main-SetUp opened fcntl current accepts calls = elim (Bool-cases (is_neg opened)) [
  | inl e ↦ ground arith
  | inr e ↦ elim (Bool-cases (is_neg fcntl)) [
    | inl f ↦ ground arith
    | inr f ↦
        let v = settings-Is9600 opened current accepts e in
        elim (Bool-cases (create_detached_pthread calls).thread) [
          | inl g ↦ ground (arith, create_detached_pthread-thread calls)
          | inr g ↦ ground (arith, create_detached_pthread-thread calls)
        ]
  ]
]

print_loop-served :
    (pending : List ℕ) (answers : List Answer)
    → print_loop pending answers
      ≡ record { bytes = take (serves answers) pending; left = drop (serves answers) pending }
unfolding print_loop
print_loop-served pending [] = refl
print_loop-served [] (serve k ∷ answers) =
    ground (arith, read-serve_nil k 1, print_loop-served [] answers, take_nil (serves answers))
  where
    take_nil : (n : ℕ) → (take {A = ℕ} n [] ≡ []) × (drop {A = ℕ} n [] ≡ [])
    take_nil zero = (refl, refl)
    take_nil (suc n) = (refl, refl)
print_loop-served (x ∷ pending) (serve k ∷ answers) =
    ground (arith, read-serve_cons k 0 x pending, print_loop-served pending answers)
print_loop-served pending (nothing ∷ answers) =
    ground (arith, read-nothing 1 pending, print_loop-served pending answers)
print_loop-served pending (refuse e ∷ answers) =
    ground (arith, read-refuse e 1 pending, print_loop-served pending answers)

-- `read_port` prints the bytes of the stream in order, one for each call of `read` that the kernel
-- serves, through all empty and refused calls.
read_port-served :
    (fd : ℤ) (s : Source)
    → fd ≢ pos 0
    → read_port fd s ≡ record {
      bytes = take (serves s.answers) s.pending;
      left = drop (serves s.answers) s.pending;
    }
unfolding read_port
read_port-served (pos zero) s h = absurd (h refl)
read_port-served (pos (suc n)) s h = ground (arith, print_loop-served s.pending s.answers)
read_port-served (negsuc n) s h = print_loop-served s.pending s.answers
