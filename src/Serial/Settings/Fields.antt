-- ===== src/Serial/Settings/Fields.antt =====
-- The speed, size, stop bits and parity that `set_serial_port_attr` (private_libary/linux_serial_port/linux_serial_port.c) sets.
use itrace.Prelude.{
  ℕ, ◌+◌, ◌*◌, ◌%◌, ◌≤◌, ◌<◌, ◌≡◌, ◌≢◌, ◌⊎◌, inl, inr, refl, sym, ap, ◌∙◌, [], ◌∷◌, Option, none,
  some, Bool, true, false, ◌&&◌, ◌||◌, not, arith,
}
use itrace.Serial.Desc.{
  Speed, CharSize, cs5, cs6, cs7, cs8, StopBits, stop_bits_1, stop_bits_2, Parity, odd, even,
  no_parity, space, get_baud_rate_from_desc, get_data_bits_from_desc, get_stop_bits_from_desc,
  get_parity_from_desc,
}
use itrace.Serial.Desc.Rates.{rate_of, IsRateOf, rate_of-found, get_baud_rate_from_desc-rate}
use itrace.Serial.Flags.{bit_in, parmrk, inpck, istrip, cstopb, parenb, parodd, cbaud, speed_bits}
use itrace.Serial.Settings.{
  Termios, SerialPortParams, cfsetispeed, cfsetospeed, set_baud_rate, set_data_bits,
  set_parity_bits, set_stop_bits, make_attr,
}

-- The speed: both speeds and `CBAUD` are the code that has the rate in its name (but `B2500000` for the
-- rate 3500000), or as they were, if no code has.
abbrev pub IsSpeedOf : (rate : ℕ) → (old new : Termios) → Type 0
IsSpeedOf rate old new =
    ((v : Speed) × IsRateOf rate v
      × (new.ispeed ≡ some v)
      × (new.ospeed ≡ some v)
      × ((b : ℕ) → (bit_in cbaud b ≡ false) ⊎ (new.c_cflag b ≡ bit_in (speed_bits v) b)))
    ⊎ (((v : Speed) → rate_of v ≢ rate)
        × (new.ispeed ≡ old.ispeed)
        × (new.ospeed ≡ old.ospeed)
        × ((b : ℕ) → (bit_in cbaud b ≡ false) ⊎ (new.c_cflag b ≡ old.c_cflag b)))

abbrev pub to_nat : Bool → ℕ
to_nat false = 0
to_nat true = 1

-- `CSIZE` is the number of the data bits less 5.
abbrev pub IsSizeOf : (data_bits : ℕ) → (old new : Termios) → Type 0
IsSizeOf data_bits old new =
    ((data_bits ≤ 8) × (data_bits ≡ 5 + (to_nat (new.c_cflag 4) + 2 * to_nat (new.c_cflag 5))))
    ⊎ (((data_bits < 5) ⊎ (8 < data_bits))
        × (new.c_cflag 4 ≡ old.c_cflag 4)
        × (new.c_cflag 5 ≡ old.c_cflag 5))

abbrev pub IsStopOf : (stop_bits : ℕ) → (old new : Termios) → Type 0
IsStopOf stop_bits old new =
    (stop_bits ≡ 1 + to_nat (new.c_cflag cstopb))
    ⊎ ((stop_bits ≢ 1) × (stop_bits ≢ 2) × (new.c_cflag cstopb ≡ old.c_cflag cstopb))

-- The three bits of the input word that go with a parity.
abbrev Checked : (on : Bool) → (new : Termios) → Type 0
Checked on new = (new.c_iflag inpck ≡ on) × (new.c_iflag parmrk ≡ on) × (new.c_iflag istrip ≡ on)

-- By the letter of the parity: even and odd turn the check, the marking and the stripping of the input on, none
-- and space turn them off, and for another letter all is as it was.
abbrev pub IsParityOf : (letter : ℕ) → (old new : Termios) → Type 0
IsParityOf letter old new =
    ((bit_in (b'e' ∷ b'E' ∷ []) letter ≡ true)
      × (new.c_cflag parenb ≡ true)
      × (new.c_cflag parodd ≡ false)
      × Checked true new)
    ⊎ ((bit_in (b'o' ∷ b'O' ∷ []) letter ≡ true)
        × (new.c_cflag parenb ≡ true)
        × (new.c_cflag parodd ≡ true)
        × Checked true new)
    ⊎ ((bit_in (b'n' ∷ b'N' ∷ b's' ∷ b'S' ∷ []) letter ≡ true)
        × (new.c_cflag parenb ≡ false)
        × (new.c_cflag parodd ≡ old.c_cflag parodd)
        × Checked false new)
    ⊎ ((bit_in (b'e' ∷ b'E' ∷ b'o' ∷ b'O' ∷ b'n' ∷ b'N' ∷ b's' ∷ b'S' ∷ []) letter ≡ false)
        × (new.c_cflag parenb ≡ old.c_cflag parenb)
        × (new.c_cflag parodd ≡ old.c_cflag parodd)
        × (new.c_iflag inpck ≡ old.c_iflag inpck)
        × (new.c_iflag parmrk ≡ old.c_iflag parmrk)
        × (new.c_iflag istrip ≡ old.c_iflag istrip))

not_found : (v : Speed) → some v ≢ none
not_found v e = ground arith

-- The setters behind `set_baud_rate` leave `CBAUD` as it is.
later-kept :
    (spp : SerialPortParams) (t : Termios) (b : ℕ)
    → let c = (set_data_bits t (spp.data_bit % 256)).1 in
      let d = (set_parity_bits c spp.parity_bits).1 in
      let e = (set_stop_bits d (spp.stop_bit % 256)).1 in
      (bit_in cbaud b ≡ false) ⊎ (e.c_cflag b ≡ t.c_cflag b)
unfolding set_data_bits set_parity_bits set_stop_bits
later-kept spp t b = ground arith

replaced : (y x z : Bool) → (y ≡ false) ⊎ ((x || (not y && z)) ≡ x)
replaced false x z = inl refl
replaced true false z = inr refl
replaced true true z = inr refl

speed_bits-set :
    (t : Termios) (v : Speed) (rate b : ℕ)
    → get_baud_rate_from_desc rate ≡ some v
    → (bit_in cbaud b ≡ false) ⊎ ((set_baud_rate t rate).1.c_cflag b ≡ bit_in (speed_bits v) b)
unfolding set_baud_rate cfsetospeed
speed_bits-set t v rate b e =
    rw (e, set_baud_rate)
      (replaced (bit_in cbaud b) (bit_in (speed_bits v) b) ((cfsetispeed t v).c_cflag b))

speed_bits-kept :
    (t : Termios) (rate b : ℕ)
    → get_baud_rate_from_desc rate ≡ none
    → (set_baud_rate t rate).1.c_cflag b ≡ t.c_cflag b
unfolding set_baud_rate
speed_bits-kept t rate b e = rw (e, set_baud_rate) refl

either {ℓ} : {A : Type ℓ} {x y z : A} {P : Type 0} → P ⊎ (x ≡ y) → P ⊎ (y ≡ z) → P ⊎ (x ≡ z)
either (inl p) q = inl p
either (inr e) (inl p) = inl p
either (inr e) (inr f) = inr (e ∙ f)

pub make_attr-IsSpeedOf :
    (spp : SerialPortParams) (old : Termios) (r : Option Speed)
    → get_baud_rate_from_desc spp.baud_rate ≡ r
    → IsSpeedOf spp.baud_rate old (make_attr spp old)
unfolding make_attr
make_attr-IsSpeedOf spp old (some v) e = inl (
  v,
  (get_baud_rate_from_desc-rate spp.baud_rate v e).0,
  ground arith,
  ground arith,
  λ b.
      either (later-kept spp (set_baud_rate old spp.baud_rate).1 b)
        (speed_bits-set old v spp.baud_rate b e),
)
make_attr-IsSpeedOf spp old none e = inr (
  λ v h. not_found v (sym (rate_of-found v) ∙ ap get_baud_rate_from_desc h ∙ e),
  ground arith,
  ground arith,
  λ b.
      either (later-kept spp (set_baud_rate old spp.baud_rate).1 b)
        (inr (speed_bits-kept old spp.baud_rate b e)),
)

abbrev SizeView : ℕ → Option CharSize → Type 0
SizeView d none = (d < 5) ⊎ (8 < d)
SizeView d (some cs5) = d ≡ 5
SizeView d (some cs6) = d ≡ 6
SizeView d (some cs7) = d ≡ 7
SizeView d (some cs8) = d ≡ 8

pub size-View : (d : ℕ) → SizeView d (get_data_bits_from_desc d)
unfolding get_data_bits_from_desc
size-View d = ground arith

pub make_attr-IsSizeOf :
    (spp : SerialPortParams) (old : Termios) (r : Option CharSize)
    → get_data_bits_from_desc (spp.data_bit % 256) ≡ r
    → SizeView (spp.data_bit % 256) r
    → IsSizeOf (spp.data_bit % 256) old (make_attr spp old)
unfolding make_attr
make_attr-IsSizeOf spp old none e v = ground arith
make_attr-IsSizeOf spp old (some cs5) e v = ground arith
make_attr-IsSizeOf spp old (some cs6) e v = ground arith
make_attr-IsSizeOf spp old (some cs7) e v = ground arith
make_attr-IsSizeOf spp old (some cs8) e v = ground arith

abbrev StopView : ℕ → Option StopBits → Type 0
StopView d none = (d ≢ 1) × (d ≢ 2)
StopView d (some stop_bits_1) = d ≡ 1
StopView d (some stop_bits_2) = d ≡ 2

pub stop-View : (d : ℕ) → StopView d (get_stop_bits_from_desc d)
unfolding get_stop_bits_from_desc
stop-View d = ground arith

pub make_attr-IsStopOf :
    (spp : SerialPortParams) (old : Termios) (r : Option StopBits)
    → get_stop_bits_from_desc (spp.stop_bit % 256) ≡ r
    → StopView (spp.stop_bit % 256) r
    → IsStopOf (spp.stop_bit % 256) old (make_attr spp old)
unfolding make_attr
make_attr-IsStopOf spp old none e v = ground arith
make_attr-IsStopOf spp old (some stop_bits_1) e v = ground arith
make_attr-IsStopOf spp old (some stop_bits_2) e v = ground arith

abbrev ParityView : ℕ → Option Parity → Type 0
ParityView d none = bit_in (b'e' ∷ b'E' ∷ b'o' ∷ b'O' ∷ b'n' ∷ b'N' ∷ b's' ∷ b'S' ∷ []) d ≡ false
ParityView d (some even) = bit_in (b'e' ∷ b'E' ∷ []) d ≡ true
ParityView d (some odd) = bit_in (b'o' ∷ b'O' ∷ []) d ≡ true
ParityView d (some no_parity) = bit_in (b'n' ∷ b'N' ∷ b's' ∷ b'S' ∷ []) d ≡ true
ParityView d (some space) = bit_in (b'n' ∷ b'N' ∷ b's' ∷ b'S' ∷ []) d ≡ true

pub parity-View : (d : ℕ) → ParityView d (get_parity_from_desc d)
unfolding get_parity_from_desc
parity-View d = ground arith

pub make_attr-IsParityOf :
    (spp : SerialPortParams) (old : Termios) (r : Option Parity)
    → get_parity_from_desc spp.parity_bits ≡ r
    → ParityView spp.parity_bits r
    → IsParityOf spp.parity_bits old (make_attr spp old)
unfolding make_attr
make_attr-IsParityOf spp old none e v =
    inr (inr (inr (v, ground arith, ground arith, ground arith, ground arith, ground arith)))
make_attr-IsParityOf spp old (some even) e v =
    inl (v, ground arith, ground arith, (ground arith, ground arith, ground arith))
make_attr-IsParityOf spp old (some odd) e v =
    inr (inl (v, ground arith, ground arith, (ground arith, ground arith, ground arith)))
make_attr-IsParityOf spp old (some no_parity) e v =
    inr (inr (inl (v, ground arith, ground arith, (ground arith, ground arith, ground arith))))
make_attr-IsParityOf spp old (some space) e v =
    inr (inr (inl (v, ground arith, ground arith, (ground arith, ground arith, ground arith))))
