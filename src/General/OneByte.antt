-- ===== src/General/OneByte.antt =====
-- `readn` and `writen` (general/general.c) of one byte, as the threads use them on pipes.
use itrace.Prelude.{
  ℕ, zero, suc, ◌≡◌, refl, ap, ◌∙◌, List, [], ◌∷◌, ◌++◌, Option, none, some, false, length, take, ℤ,
  pos, negsuc, ◌==ℤ◌, is_neg, append-nil, arith, Bool-cases, inl, inr,
}
use itrace.Posix.{Source, Sink}
use itrace.General.{Received, readn, Sent, writen}
use itrace.General.Readn.{IsReceipt, Returned, readn-IsReceipt}
use itrace.General.Writen.{IsPassed, writen-IsPassed, writen-negative}
use itrace.General.Writen

-- The byte is read, the call gives another result, or it blocks.
pub data ByteRead (stream : List ℕ) (r : Received) : Type 0 where
  byte :
      (i : ℕ) (rest : List ℕ)
      → stream ≡ i ∷ rest
      → r.ret ≡ some (pos 1)
      → r.stored ≡ i ∷ []
      → r.left.pending ≡ rest
      → ByteRead stream r
  no_byte :
      (z : ℤ) → r.ret ≡ some z → (z ==ℤ pos 1) ≡ false → r.left.pending ≡ stream → ByteRead stream r
  waits : r.ret ≡ none → r.left.pending ≡ stream → ByteRead stream r

byte_read :
    (stream : List ℕ) (r : Received) (stored : List ℕ) (ret : Option ℤ)
    → r.stored ≡ stored
    → r.ret ≡ ret
    → IsReceipt 1 stream r
    → Returned 1 (length stored) r.left.answers ret
    → ByteRead stream r
byte_read stream r [] none es er c o = waits er (ground (arith, c.conserved))
byte_read stream r [] (some (pos zero)) es er c o =
    no_byte (pos 0) er (ground arith) (ground (arith, c.conserved))
byte_read stream r [] (some (pos (suc j))) es er c o = absurd (omega arith)
byte_read stream r [] (some (negsuc j)) es er c o =
    no_byte (negsuc j) er refl (ground (arith, c.conserved))
byte_read stream r (i ∷ []) none es er c o = absurd (omega (arith, o.1))
byte_read stream r (i ∷ []) (some (pos j)) es er c o =
    byte i r.left.pending (ground (arith, c.conserved)) (ground arith) es refl
byte_read stream r (i ∷ []) (some (negsuc j)) es er c o = absurd (omega (arith, o.1))
byte_read stream r (i ∷ k ∷ more) ret es er c o = absurd (omega (arith, c.fits, ap length es))

pub readn-ByteRead : (s : Source) → ByteRead s.pending (readn s 1)
readn-ByteRead s =
    let r = readn s 1 in
    let c = readn-IsReceipt s 1 (omega arith) in
    byte_read s.pending r r.stored r.ret refl refl c c.outcome

-- The byte is passed on, the call gives another result, or it blocks.
pub data ByteSent (i : ℕ) (before : List ℕ) (r : Sent) : Type 0 where
  passed : r.ret ≡ some (pos 1) → r.sink.accepted ≡ before ++ i ∷ [] → ByteSent i before r
  not_passed :
      (z : ℤ)
      → r.ret ≡ some z
      → (z ==ℤ pos 1) ≡ false
      → r.sink.accepted ≡ before
      → ByteSent i before r
  waits : r.ret ≡ none → r.sink.accepted ≡ before → ByteSent i before r

byte_sent :
    (i : ℕ) (before : List ℕ) (r : Sent) (taken : ℕ) (ret : Option ℤ)
    → r.sink.accepted ≡ before ++ take taken (i ∷ [])
    → r.ret ≡ ret
    → Writen.Returned 1 taken r.sink.answers ret
    → ByteSent i before r
byte_sent i before r zero none m er o = waits er (m ∙ append-nil before)
byte_sent i before r (suc t) none m er o = absurd (omega (arith, o.1))
byte_sent i before r taken (some (pos j)) m er o =
    passed (ground arith) (m ∙ ap (λ k. before ++ take k (i ∷ [])) o.1)
byte_sent i before r zero (some (negsuc j)) m er o =
    not_passed (negsuc j) er refl (m ∙ append-nil before)
byte_sent i before r (suc t) (some (negsuc j)) m er o = absurd (omega (arith, o.1))

pub writen-ByteSent : (fd : ℤ) (s : Sink) (i : ℕ) → ByteSent i s.accepted (writen fd s (i ∷ []) 1)
writen-ByteSent fd s i = elim (Bool-cases (is_neg fd)) [
  | inl n ↦
      let e = writen-negative fd s (i ∷ []) 1 n in
      not_passed (pos 0) (ap (λ r. r.ret) e) (ground arith) (ap (λ r. r.sink.accepted) e)
  | inr v ↦
      let p = writen-IsPassed fd s (i ∷ []) 1 v (omega arith) in
      byte_sent i s.accepted (writen fd s (i ∷ []) 1) p.taken (writen fd s (i ∷ []) 1).ret p.moved
        refl p.outcome
]
