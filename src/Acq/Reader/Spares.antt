-- ===== src/Acq/Reader/Spares.antt =====
-- Which buffers `read_dma_thread` (acq_data_trans/server.c) leaves alone.
use itrace.Prelude.{
  ℕ, ◌<◌, ◌≡◌, ◌⊎◌, refl, sym, ap, ◌∙◌, subst, List, [], ◌∷◌, ◌++◌, some, drop, length, count, ℤ,
  pos, minus_one, arith,
}
use itrace.Posix.{Answer, ReadResult, read, got, failed}
use itrace.General.{SystemStatus, running, stop, readn}
use itrace.General.OneByte.{ByteRead, byte, no_byte, readn-ByteRead}
use itrace.Acq.Buffers.{max_dma_length}
use itrace.Acq.Threads.{Buffer, update, ReaderPc, System, Reach}
use itrace.Acq.Threads.Invariant.{Reach-Inv}
use itrace.Acq.Threads.Safety.{sender_uses}
use itrace.Acq.Reader.{
  DmaReader, Round, again, index_lost, index_blocked, device_lost, device_blocked, pipe_lost,
  pipe_blocked, pass_index, fill_buffer, read_round, Outcome, read_dma_thread, left,
}
use itrace.Acq.Reader.Match.{Matches}

-- The buffer `i` is as it was, and is still not among the free ones.
record IsSpared (i : ℕ) (t u : DmaReader) : Type 0 where
  same : u.buff_list i ≡ t.buff_list i
  absent : count i u.dma_index.pending ≡ 0

pass_index-same :
    (fd : ℤ) (j : ℕ) (t : DmaReader)
    → let u = (pass_index fd j t).1 in (u.buff_list ≡ t.buff_list) × (u.dma_index ≡ t.dma_index)
unfolding pass_index
pass_index-same fd j t = ground arith

update-other : (f : ℕ → Buffer) (i j : ℕ) (b : Buffer) → (i ≡ j → ⊥) → update f j b i ≡ f i
update-other f i j b ne = ground arith

abbrev Kept : (i : ℕ) → (t u : DmaReader) → Type 0
Kept i t u = (u.buff_list i ≡ t.buff_list i) × (u.dma_index ≡ t.dma_index)

fill_buffer-Kept :
    (fd : ℤ) (i j : ℕ) (t : DmaReader) → (i ≡ j → ⊥) → Kept i t (fill_buffer fd j t).1
unfolding fill_buffer
fill_buffer-Kept fd i j t ne = go t.dev.answers
  where
    go :
        (answers : List Answer)
        → let r : Round × DmaReader = elim answers [
          | [] ↦ (device_blocked j, t)
          | a ∷ rest ↦ elim (read a max_dma_length t.dev.pending) [
            | got bs ↦ pass_index fd j (record t {
              dev = record { pending = drop (length bs) t.dev.pending; answers = rest };
              buff_list = update t.buff_list j (record { length = pos (length bs); bytes = bs });
            })
            | failed e ↦ (
              device_lost j,
              record t {
                dev = record { pending = t.dev.pending; answers = rest };
                buff_list =
                    update t.buff_list j
                      (record { length = minus_one; bytes = (t.buff_list j).bytes });
              },
            )
          ]
        ] in
          Kept i t r.1
    go [] = (refl, refl)
    go (a ∷ rest) = ended_with (read a max_dma_length t.dev.pending)
      where
        ended_with :
            (x : ReadResult)
            → let r : Round × DmaReader = elim x [
              | got bs ↦ pass_index fd j (record t {
                dev = record { pending = drop (length bs) t.dev.pending; answers = rest };
                buff_list = update t.buff_list j (record { length = pos (length bs); bytes = bs });
              })
              | failed e ↦ (
                device_lost j,
                record t {
                  dev = record { pending = t.dev.pending; answers = rest };
                  buff_list =
                      update t.buff_list j
                        (record { length = minus_one; bytes = (t.buff_list j).bytes });
                },
              )
            ] in
              Kept i t r.1
        ended_with (got bs) =
            let b : Buffer = record { length = pos (length bs); bytes = bs } in
            let u : DmaReader = record t {
              dev = record { pending = drop (length bs) t.dev.pending; answers = rest };
              buff_list = update t.buff_list j b;
            } in
            let (lists, index) = pass_index-same fd j u in
            (ap (λ (f : ℕ → Buffer). f i) lists ∙ update-other t.buff_list i j b ne, index)
        ended_with (failed e) = (
          update-other t.buff_list i j
              (record { length = minus_one; bytes = (t.buff_list j).bytes }) ne,
          refl,
        )

-- One round, where `i` is not among the free buffers.
read_round-IsSpared :
    (fd : ℤ) (i : ℕ) (t : DmaReader)
    → count i t.dma_index.pending ≡ 0
    → IsSpared i t (read_round fd t).1
unfolding read_round
read_round-IsSpared fd i t h =
    let r = readn t.dma_index 1 in
    let t' : DmaReader = record t { dma_index = r.left } in
    elim (readn-ByteRead t.dma_index) [
      | byte j rest e er es el ↦
          let u : DmaReader = record t' { offsets = t'.offsets ++ j ∷ [] } in
          let q : read_round fd t ≡ fill_buffer fd j u = ground arith in
          let ne : (i ≡ j → ⊥) = λ same. ground arith in
          let kept = fill_buffer-Kept fd i j u ne in
          subst (λ (x : Round × DmaReader). IsSpared i t x.1) (sym q)
            (record { same = kept.0; absent = ground (arith, kept.1) })
      | no_byte z er ne el ↦
          let q : read_round fd t ≡ (index_lost, t') = ground arith in
          subst (λ (x : Round × DmaReader). IsSpared i t x.1) (sym q)
            (record { same = refl; absent = ap (count i) el ∙ h })
      | ByteRead.waits er el ↦
          let q : read_round fd t ≡ (index_blocked, t') = ground arith in
          subst (λ (x : Round × DmaReader). IsSpared i t x.1) (sym q)
            (record { same = refl; absent = ap (count i) el ∙ h })
    ]

read_dma_thread-IsSpared :
    (readings : List SystemStatus) (fd : ℤ) (i : ℕ) (t : DmaReader)
    → count i t.dma_index.pending ≡ 0
    → IsSpared i t (read_dma_thread readings fd t).1
unfolding read_dma_thread
read_dma_thread-IsSpared [] fd i t h = record { same = refl; absent = h }
read_dma_thread-IsSpared (stop ∷ readings) fd i t h = record { same = refl; absent = h }
read_dma_thread-IsSpared (running ∷ readings) fd i t h =
    go (read_round fd t).0 (read_round fd t).1 (read_round-IsSpared fd i t h)
      (λ u k. read_dma_thread-IsSpared readings fd i u k)
  where
    go :
        (r : Round) (u : DmaReader)
        → IsSpared i t u
        → ((u : DmaReader)
            → count i u.dma_index.pending ≡ 0
            → IsSpared i u (read_dma_thread readings fd u).1)
        → let q : Outcome × DmaReader = elim r [
          | again ↦ read_dma_thread readings fd u
          | r ↦ (left r, u)
        ] in
          IsSpared i t q.1
    go again u one rec =
        let more = rec u one.absent in record { same = more.same ∙ one.same; absent = more.absent }
    go index_lost u one rec = one
    go index_blocked u one rec = one
    go (device_lost j) u one rec = one
    go (device_blocked j) u one rec = one
    go (pipe_lost j) u one rec = one
    go (pipe_blocked j) u one rec = one

not_free :
    {s : System} {i : ℕ}
    → Reach s
    → (sender_uses s.sender ≡ some i) ⊎ (0 < count i s.socket_pipe)
    → count i s.dma_pipe ≡ 0
not_free {s} {i} r h = ground (arith, (Reach-Inv r).tokens i)

-- From any state that the two threads can reach, with the reading thread at its test, `read_dma_thread` does
-- not touch a buffer that the sending thread works on or whose index is in the pipe of full buffers,
-- whatever its calls give, however long it runs and however it ends.
pub read_dma_thread-spares :
    (readings : List SystemStatus) (fd : ℤ) (stream : List ℕ) (t : DmaReader) (s : System) (i : ℕ)
    → Reach s
    → Matches stream ReaderPc.testing t s
    → (sender_uses s.sender ≡ some i) ⊎ (0 < count i s.socket_pipe)
    → (read_dma_thread readings fd t).1.buff_list i ≡ s.buffer i
read_dma_thread-spares readings fd stream t s i r m h =
    (read_dma_thread-IsSpared readings fd i t (ap (count i) (sym m.dma_pipe) ∙ not_free r h)).same
    ∙ ap (λ (b : ℕ → Buffer). b i) (sym m.buffers)
