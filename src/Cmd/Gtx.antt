-- ===== src/Cmd/Gtx.antt =====
-- cmd_status_trans/server.c, `set_gtx_rx_ch_enable`, which no other function calls.
use itrace.Prelude.{
  ℕ, ◌≡◌, refl, ap, List, [], ◌∷◌, Option, none, some, Bool, false, if◌then◌else◌, ℤ, pos, negsuc,
  minus_one, ◌==ℤ◌, is_neg, arith,
}
use itrace.Posix.{Answer, Sink}
use itrace.General.{Sent, writen}
use itrace.General.Writen.{Returned, writen-IsPassed}

-- `enable_dma_data_trans` and `disable_dma_data_trans`
abbrev dma_data_trans : (opening : Bool) → List ℕ
dma_data_trans opening =
    0x0a
    ∷ 0x83
    ∷ 0x80
    ∷ 0x00
    ∷ 0x00
    ∷ 0x00
    ∷ 0x00
    ∷ 0xff
    ∷ (if opening then 0xa0 else 0xa1)
    ∷ 0x00
    ∷ 0x00
    ∷ []

-- The result, 11 or -1, of the `writen`.
set_gtx_rx_ch_enable : ℤ → (opening : ℤ) → Sink → Sent
set_gtx_rx_ch_enable fd opening s =
    let r = writen fd s (dma_data_trans (opening ==ℤ pos 1)) 11 in
    record {
      ret = elim r.ret [
        | none ↦ none
        | some ret ↦ some (if ret ==ℤ pos 11 then pos 11 else minus_one)
      ];
      sink = r.sink;
    }

-- For a valid descriptor, what is returned and passed on is what `writen` of the frame returns and passes on: the
-- comparison with the length changes nothing.
set_gtx_rx_ch_enable-writen :
    (fd opening : ℤ) (s : Sink)
    → is_neg fd ≡ false
    → set_gtx_rx_ch_enable fd opening s ≡ writen fd s (dma_data_trans (opening ==ℤ pos 1)) 11
unfolding set_gtx_rx_ch_enable
set_gtx_rx_ch_enable-writen fd opening s v =
    let frame = dma_data_trans (opening ==ℤ pos 1) in
    let r = writen fd s frame 11 in
    let p = writen-IsPassed fd s frame 11 v (omega arith) in
    ap (λ ret. record { ret = ret; sink = r.sink }) (same r.ret p.taken r.sink.answers p.outcome)
  where
    same :
        (o : Option ℤ) (taken : ℕ) (answers : List Answer)
        → Returned 11 taken answers o
        → elim o [ none ↦ none | some ret ↦ some (if ret ==ℤ pos 11 then pos 11 else minus_one) ]
          ≡ o
    same none taken answers h = refl
    same (some (pos j)) taken answers h = ground arith
    same (some (negsuc j)) taken answers h = ground arith
