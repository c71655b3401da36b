-- ===== src/Acq/Sender/Writes.antt =====
-- The `writen` of a buffer to the client's socket (acq_data_trans/server.c, `send_acq_data_thread`).
use itrace.Prelude.{
  ℕ, suc, ◌≤◌, ◌≡◌, refl, sym, ap, ◌∙◌, List, ◌++◌, Option, none, some, false, take, ℤ, pos, negsuc,
  ◌==ℤ◌, is_neg, append-nil, arith, Bool-cases, inl, inr,
}
use itrace.Posix.{Sink}
use itrace.General.{Sent, writen}
use itrace.General.Writen
use itrace.General.Writen.{writen-IsPassed, writen-negative}
use itrace.Acq.Buffers.{max_dma_length}

-- What the `writen` of a buffer has done.
pub data BufferSent (n : ℕ) (bytes before : List ℕ) (r : Sent) : Type 0 where
  sent_all :
      r.ret ≡ some (pos (suc n))
      → r.sink.accepted ≡ before ++ take (suc n) bytes
      → BufferSent n bytes before r
  sent_part :
      (z : ℤ) (k : ℕ)
      → r.ret ≡ some z
      → (z ==ℤ pos (suc n)) ≡ false
      → k ≤ n
      → r.sink.accepted ≡ before ++ take k bytes
      → BufferSent n bytes before r
  stuck :
      (k : ℕ)
      → r.ret ≡ none
      → k ≤ n
      → r.sink.accepted ≡ before ++ take k bytes
      → BufferSent n bytes before r

buffer_sent :
    (n : ℕ) (bytes before : List ℕ) (r : Sent) (taken : ℕ) (ret : Option ℤ)
    → r.sink.accepted ≡ before ++ take taken bytes
    → r.ret ≡ ret
    → Writen.Returned (suc n) taken r.sink.answers ret
    → BufferSent n bytes before r
buffer_sent n bytes before r taken none m er o = stuck taken er (omega (arith, o.1)) m
buffer_sent n bytes before r taken (some (pos j)) m er o =
    sent_all (er ∙ ap (λ k. some (pos k)) o.0) (m ∙ ap (λ k. before ++ take k bytes) o.1)
buffer_sent n bytes before r taken (some (negsuc j)) m er o =
    sent_part (negsuc j) taken er refl (omega (arith, o.1)) m

pub writen-BufferSent :
    (fd : ℤ) (s : Sink) (n : ℕ) (bytes : List ℕ)
    → suc n ≤ max_dma_length
    → BufferSent n bytes s.accepted (writen fd s bytes (suc n))
writen-BufferSent fd s n bytes h = elim (Bool-cases (is_neg fd)) [
  | inl neg ↦
      let e = writen-negative fd s bytes (suc n) neg in
      sent_part (pos 0) 0 (ap (λ r. r.ret) e) (ground arith) (omega arith)
        (ap (λ r. r.sink.accepted) e ∙ sym (append-nil s.accepted))
  | inr v ↦
      let r = writen fd s bytes (suc n) in
      let p = writen-IsPassed fd s bytes (suc n) v (omega arith) in
      buffer_sent n bytes s.accepted r p.taken r.ret p.moved refl p.outcome
]
