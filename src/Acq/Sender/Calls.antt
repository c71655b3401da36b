-- ===== src/Acq/Sender/Calls.antt =====
-- The calls on the client's socket and on the pipe of free buffers (acq_data_trans/server.c,
-- `send_acq_data_thread`) as steps of the relation of the two threads.
use itrace.Prelude.{
  ℕ, zero, suc, ◌≤◌, ◌≡◌, refl, sym, ap, ◌∙◌, subst, [], ◌∷◌, ◌++◌, some, false, take, drop,
  take-take_of_le, ℤ, pos, negsuc, is_pos, append-nil, arith,
}
use itrace.General.{writen}
use itrace.General.OneByte.{ByteSent, passed, not_passed, writen-ByteSent}
use itrace.Acq.Buffers.{max_dma_length}
use itrace.Acq.Threads.{
  payload, SenderPc, System, work, fault, send_data, send_skip, send_pass, send_data_fails,
  send_pass_fails,
}
use itrace.Acq.Threads.Runs.{here, then_step}
use itrace.Acq.Sender.{
  AcqSender, again, socket_lost, socket_blocked, pipe_lost, pipe_blocked, give_back, send_buffer,
}
use itrace.Acq.Sender.Match.{IsFitting, Matches, Refined, from_next}
use itrace.Acq.Sender.Writes.{sent_all, sent_part, stuck, writen-BufferSent}

module _ (fd w_fd : ℤ) where
  give_back-Refined :
      (i : ℕ) (t : AcqSender) (s : System)
      → Matches (SenderPc.done i) [] t s
      → Refined s (give_back fd w_fd i t)
  unfolding give_back
  give_back-Refined i t s m =
      let w = writen w_fd t.dma_index (i ∷ []) 1 in
      let t' : AcqSender = record t { dma_index = w.sink } in
      elim (writen-ByteSent w_fd t.dma_index i) [
        | passed e a ↦
            let q : give_back fd w_fd i t ≡ (again, t') = ground arith in
            subst (Refined s) (sym q) (record {
              after = record s { sender = SenderPc.testing; dma_pipe = s.dma_pipe ++ i ∷ [] };
              run = then_step here (work (send_pass m.sender));
              pc = SenderPc.testing;
              ahead = [];
              stands = (refl, refl);
              now = record {
                sender = refl;
                socket_pipe = m.socket_pipe;
                dma_pipe = ap (λ p. p ++ i ∷ []) m.dma_pipe ∙ sym a;
                buffers = m.buffers;
                sent = m.sent;
              };
              reader = refl;
              acquired = refl;
              status = refl;
            })
        | not_passed z e ne a ↦
            let q : give_back fd w_fd i t ≡ (pipe_lost i, t') = ground arith in
            subst (Refined s) (sym q) (record {
              after = record s { sender = SenderPc.gone (some i) [] };
              run = then_step here (fault (send_pass_fails m.sender));
              pc = SenderPc.gone (some i) [];
              ahead = [];
              stands = (refl, refl);
              now = record {
                sender = refl;
                socket_pipe = m.socket_pipe;
                dma_pipe = m.dma_pipe ∙ sym a;
                buffers = m.buffers;
                sent = m.sent;
              };
              reader = refl;
              acquired = refl;
              status = refl;
            })
        | ByteSent.waits e a ↦
            let q : give_back fd w_fd i t ≡ (pipe_blocked i, t') = ground arith in
            subst (Refined s) (sym q) (record {
              after = s;
              run = here;
              pc = SenderPc.done i;
              ahead = [];
              stands = (refl, refl);
              now = record {
                sender = m.sender;
                socket_pipe = m.socket_pipe;
                dma_pipe = m.dma_pipe ∙ sym a;
                buffers = m.buffers;
                sent = m.sent;
              };
              reader = refl;
              acquired = refl;
              status = refl;
            })
      ]

  sent-Refined :
      (i n : ℕ) (t : AcqSender) (s : System)
      → (t.buff_list i).length ≡ pos (suc n)
      → suc n ≤ max_dma_length
      → Matches (SenderPc.got i) [] t s
      → Refined s (send_buffer fd w_fd i (pos (suc n)) t)
  unfolding send_buffer
  sent-Refined i n t s el fits m =
      let bytes = (t.buff_list i).bytes in
      let w = writen fd t.socket bytes (suc n) in
      let t' : AcqSender = record t { socket = w.sink } in
      let length_of : (s.buffer i).length ≡ pos (suc n) = ap (λ b. (b i).length) m.buffers ∙ el in
      let so_far : s.sent ≡ t.socket.accepted = sym (append-nil s.sent) ∙ m.sent in
      let same : (s.buffer i).bytes ≡ bytes = ap (λ b. (b i).bytes) m.buffers in
      elim (writen-BufferSent fd t.socket n bytes fits) [
        | sent_all e a ↦
            let u : System = record s {
              sender = SenderPc.done i;
              sent = s.sent ++ take (suc n) (s.buffer i).bytes;
            } in
            let q : send_buffer fd w_fd i (pos (suc n)) t ≡ give_back fd w_fd i t' = ground arith in
            subst (Refined s) (sym q) (
              from_next s u _ (work (send_data m.sender length_of)) refl refl refl (
                give_back-Refined i t' u (record {
                  sender = refl;
                  socket_pipe = m.socket_pipe;
                  dma_pipe = m.dma_pipe;
                  buffers = m.buffers;
                  sent = append-nil u.sent ∙ ground (arith, a, so_far, same);
                })))
        | sent_part z k e ne le a ↦
            let q : send_buffer fd w_fd i (pos (suc n)) t ≡ (socket_lost i, t') = ground arith in
            let all = payload (s.buffer i) in
            subst (Refined s) (sym q) (record {
              after = record s {
                sender = SenderPc.gone (some i) (drop k all);
                sent = s.sent ++ take k all;
              };
              run = then_step here (fault (send_data_fails k m.sender length_of le));
              pc = SenderPc.gone (some i) (drop k all);
              ahead = [];
              stands = (drop k all, refl, refl);
              now = record {
                sender = refl;
                socket_pipe = m.socket_pipe;
                dma_pipe = m.dma_pipe;
                buffers = m.buffers;
                sent =
                    append-nil (s.sent ++ take k all)
                    ∙ ground (
                      arith,
                      a,
                      so_far,
                      same,
                      length_of,
                      take-take_of_le k (suc n) bytes (omega arith),
                    );
              };
              reader = refl;
              acquired = refl;
              status = refl;
            })
        | stuck k e le a ↦
            let q : send_buffer fd w_fd i (pos (suc n)) t ≡ (socket_blocked i, t') = ground arith in
            subst (Refined s) (sym q) (record {
              after = s;
              run = here;
              pc = SenderPc.got i;
              ahead = take k (payload (t.buff_list i));
              stands = (k, refl, refl);
              now = record {
                sender = m.sender;
                socket_pipe = m.socket_pipe;
                dma_pipe = m.dma_pipe;
                buffers = m.buffers;
                sent = ground (arith, a, so_far, el, take-take_of_le k (suc n) bytes (omega arith));
              };
              reader = refl;
              acquired = refl;
              status = refl;
            })
      ]

  skipped-Refined :
      (i : ℕ) (t : AcqSender) (s : System)
      → is_pos (t.buff_list i).length ≡ false
      → Matches (SenderPc.got i) [] t s
      → Refined s (give_back fd w_fd i t)
  skipped-Refined i t s el m =
      let u : System = record s { sender = SenderPc.done i } in
      let none_here = ap (λ b. is_pos (b i).length) m.buffers ∙ el in
      from_next s u _ (work (send_skip m.sender none_here)) refl refl refl (
        give_back-Refined i t u (record {
          sender = refl;
          socket_pipe = m.socket_pipe;
          dma_pipe = m.dma_pipe;
          buffers = m.buffers;
          sent = m.sent;
        }))

  pub send_buffer-Refined :
      (i : ℕ) (l : ℤ) (t : AcqSender) (s : System)
      → (t.buff_list i).length ≡ l
      → IsFitting l
      → Matches (SenderPc.got i) [] t s
      → Refined s (send_buffer fd w_fd i l t)
  unfolding send_buffer
  send_buffer-Refined i (pos zero) t s el fits m = skipped-Refined i t s (ap is_pos el) m
  send_buffer-Refined i (negsuc n) t s el fits m = skipped-Refined i t s (ap is_pos el) m
  send_buffer-Refined i (pos (suc n)) t s el fits m = sent-Refined i n t s el fits m
