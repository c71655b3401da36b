-- ===== src/Acq/Reader/Calls.antt =====
-- The calls on the device and on the pipe of full buffers (acq_data_trans/server.c, `read_dma_thread`)
-- as steps of the relation of the two threads.
use itrace.Prelude.{
  ℕ, ◌≤◌, ◌≡◌, refl, sym, ap, ◌∙◌, subst, List, [], ◌∷◌, ◌++◌, some, drop, length, ℤ, pos,
  minus_one, append_assoc, arith,
}
use itrace.Posix.{Answer, ReadResult, read, got, failed}
use itrace.Posix.Calls.{read-prefix}
use itrace.General.{writen}
use itrace.General.OneByte.{ByteSent, passed, not_passed, writen-ByteSent}
use itrace.Acq.Buffers.{max_dma_length}
use itrace.Acq.Threads.{
  payload, update, ReaderPc, System, work, fault, read_fill, read_pass, read_fill_fails,
  read_pass_fails,
}
use itrace.Acq.Reader.{
  DmaReader, again, device_lost, device_blocked, pipe_lost, pipe_blocked, pass_index, fill_buffer,
}
use itrace.Acq.Threads.Runs.{here, then_step}
use itrace.Acq.Reader.Match.{Matches, Refined, from_next}

module _ (stream : List ℕ) (fd : ℤ) where
  pass_index-Refined :
      (i : ℕ) (t : DmaReader) (s : System)
      → Matches stream (ReaderPc.filled i) t s
      → Refined stream s (pass_index fd i t)
  unfolding pass_index
  pass_index-Refined i t s m =
      let w = writen fd t.socket_index (i ∷ []) 1 in
      let t' : DmaReader = record t { socket_index = w.sink } in
      elim (writen-ByteSent fd t.socket_index i) [
        | passed e a ↦
            let q : pass_index fd i t ≡ (again, t') = ground arith in
            subst (Refined stream s) (sym q) (record {
              after = record s { reader = ReaderPc.testing; socket_pipe = s.socket_pipe ++ i ∷ [] };
              run = then_step here (work (read_pass m.reader));
              now = record {
                reader = refl;
                dma_pipe = m.dma_pipe;
                socket_pipe = ap (λ p. p ++ i ∷ []) m.socket_pipe ∙ sym a;
                buffers = m.buffers;
                acquired = m.acquired;
              };
              sender = refl;
              sent = refl;
              status = refl;
            })
        | not_passed z e ne a ↦
            let q : pass_index fd i t ≡ (pipe_lost i, t') = ground arith in
            subst (Refined stream s) (sym q) (record {
              after = record s { reader = ReaderPc.gone (some i) (payload (s.buffer i)) };
              run = then_step here (fault (read_pass_fails m.reader));
              now = record {
                reader = ap (λ b. ReaderPc.gone (some i) (payload (b i))) m.buffers;
                dma_pipe = m.dma_pipe;
                socket_pipe = m.socket_pipe ∙ sym a;
                buffers = m.buffers;
                acquired = m.acquired;
              };
              sender = refl;
              sent = refl;
              status = refl;
            })
        | ByteSent.waits e a ↦
            let q : pass_index fd i t ≡ (pipe_blocked i, t') = ground arith in
            subst (Refined stream s) (sym q) (record {
              after = s;
              run = here;
              now = record {
                reader = m.reader;
                dma_pipe = m.dma_pipe;
                socket_pipe = m.socket_pipe ∙ sym a;
                buffers = m.buffers;
                acquired = m.acquired;
              };
              sender = refl;
              sent = refl;
              status = refl;
            })
      ]

  -- The device has given `bs`.
  filled-Refined :
      (i : ℕ) (t : DmaReader) (s : System) (rest : List Answer) (bs : List ℕ)
      → Matches stream (ReaderPc.got i) t s
      → bs ++ drop (length bs) t.dev.pending ≡ t.dev.pending
      → length bs ≤ max_dma_length
      → Refined stream s (
          pass_index fd i (record t {
            dev = record { pending = drop (length bs) t.dev.pending; answers = rest };
            buff_list = update t.buff_list i (record { length = pos (length bs); bytes = bs });
          }))
  filled-Refined i t s rest bs m cut fits =
      let t' : DmaReader = record t {
        dev = record { pending = drop (length bs) t.dev.pending; answers = rest };
        buff_list = update t.buff_list i (record { length = pos (length bs); bytes = bs });
      } in
      let u : System = record s {
        reader = ReaderPc.filled i;
        buffer = update s.buffer i (record { length = pos (length bs); bytes = bs });
        acquired = s.acquired ++ bs;
      } in
      from_next s u stream _ _ (work (read_fill bs m.reader fits)) refl refl refl (
        pass_index-Refined i t' u (record {
          reader = refl;
          dma_pipe = m.dma_pipe;
          socket_pipe = m.socket_pipe;
          buffers =
              ap (λ b. update b i (record { length = pos (length bs); bytes = bs })) m.buffers;
          acquired =
              append_assoc s.acquired bs (drop (length bs) t.dev.pending)
              ∙ ap (λ p. s.acquired ++ p) cut
              ∙ m.acquired;
        }))

  -- The device has refused.
  device_lost-Refined :
      (i : ℕ) (t : DmaReader) (s : System) (rest : List Answer)
      → Matches stream (ReaderPc.got i) t s
      → Refined stream s (
        device_lost i,
        record t {
          dev = record { pending = t.dev.pending; answers = rest };
          buff_list =
              update t.buff_list i (record { length = minus_one; bytes = (t.buff_list i).bytes });
        },
      )
  device_lost-Refined i t s rest m = record {
    after = record s {
      reader = ReaderPc.gone (some i) [];
      buffer = update s.buffer i (record { length = minus_one; bytes = (s.buffer i).bytes });
    };
    run = then_step here (fault (read_fill_fails m.reader));
    now = record {
      reader = refl;
      dma_pipe = m.dma_pipe;
      socket_pipe = m.socket_pipe;
      buffers = ap (λ b. update b i (record { length = minus_one; bytes = (b i).bytes })) m.buffers;
      acquired = m.acquired;
    };
    sender = refl;
    sent = refl;
    status = refl;
  }

  answered-Refined :
      (i : ℕ) (t : DmaReader) (s : System) (a : Answer) (rest : List Answer) (r : ReadResult)
      → t.dev.answers ≡ a ∷ rest
      → read a max_dma_length t.dev.pending ≡ r
      → Matches stream (ReaderPc.got i) t s
      → Refined stream s (fill_buffer fd i t)
  unfolding fill_buffer
  answered-Refined i t s a rest (got bs) e er m =
      let t' : DmaReader = record t {
        dev = record { pending = drop (length bs) t.dev.pending; answers = rest };
        buff_list = update t.buff_list i (record { length = pos (length bs); bytes = bs });
      } in
      let q : fill_buffer fd i t ≡ pass_index fd i t' = ground arith in
      let (cut, fits) = read-prefix a max_dma_length t.dev.pending bs er in
      subst (Refined stream s) (sym q) (filled-Refined i t s rest bs m cut fits)
  answered-Refined i t s a rest (failed x) e er m =
      let t' : DmaReader = record t {
        dev = record { pending = t.dev.pending; answers = rest };
        buff_list =
            update t.buff_list i (record { length = minus_one; bytes = (t.buff_list i).bytes });
      } in
      let q : fill_buffer fd i t ≡ (device_lost i, t') = ground arith in
      subst (Refined stream s) (sym q) (device_lost-Refined i t s rest m)

  pub fill_buffer-Refined :
      (i : ℕ) (t : DmaReader) (s : System) (answers : List Answer)
      → t.dev.answers ≡ answers
      → Matches stream (ReaderPc.got i) t s
      → Refined stream s (fill_buffer fd i t)
  unfolding fill_buffer
  fill_buffer-Refined i t s [] e m =
      let q : fill_buffer fd i t ≡ (device_blocked i, t) = ground arith in
      subst (Refined stream s) (sym q)
        (record { after = s; run = here; now = m; sender = refl; sent = refl; status = refl })
  fill_buffer-Refined i t s (a ∷ rest) e m =
      answered-Refined i t s a rest (read a max_dma_length t.dev.pending) e refl m
