-- ===== src/Acq/Sender/Rounds.antt =====
-- A round of `send_acq_data_thread` (acq_data_trans/server.c) as steps of the relation of the two threads.
use itrace.Prelude.{
  ℕ, zero, suc, ◌≡◌, refl, sym, ◌∙◌, subst, [], none, get_or, ℤ, pos, negsuc, arith,
}
use itrace.General.{running, readn, writen}
use itrace.General.OneByte.{ByteRead, byte, no_byte, readn-ByteRead}
use itrace.Acq.Threads.{SenderPc, System, work, fault, send_on, send_take, send_take_fails}
use itrace.Acq.Threads.Runs.{here, then_step}
use itrace.Acq.Sender.{AcqSender, index_lost, index_blocked, give_back, send_buffer, send_round}
use itrace.Acq.Sender.Match.{IsFitting, Matches, Refined, from_next}
use itrace.Acq.Sender.Calls.{send_buffer-Refined}

module _ (fd w_fd : ℤ) where
  waiting-Refined :
      (t : AcqSender) (s : System)
      → ((i : ℕ) → IsFitting (t.buff_list i).length)
      → Matches SenderPc.waiting [] t s
      → Refined s (send_round fd w_fd t)
  unfolding send_round
  waiting-Refined t s fits m =
      let r = readn t.socket_index 1 in
      let t' : AcqSender = record t { socket_index = r.left } in
      elim (readn-ByteRead t.socket_index) [
        | byte i rest p e st l ↦
            let q : send_round fd w_fd t ≡ send_buffer fd w_fd i (t.buff_list i).length t' =
              ground arith in
            let u : System = record s { sender = SenderPc.got i; socket_pipe = rest } in
            subst (Refined s) (sym q) (
              from_next s u _ (work (send_take m.sender (m.socket_pipe ∙ p))) refl refl refl (
                send_buffer-Refined fd w_fd i (t.buff_list i).length t' u refl (fits i) (record {
                  sender = refl;
                  socket_pipe = sym l;
                  dma_pipe = m.dma_pipe;
                  buffers = m.buffers;
                  sent = m.sent;
                })))
        | no_byte z e ne l ↦
            let q : send_round fd w_fd t ≡ (index_lost, t') = ground arith in
            subst (Refined s) (sym q) (record {
              after = record s { sender = SenderPc.gone none [] };
              run = then_step here (fault (send_take_fails m.sender));
              pc = SenderPc.gone none [];
              ahead = [];
              stands = (refl, refl);
              now = record {
                sender = refl;
                socket_pipe = m.socket_pipe ∙ sym l;
                dma_pipe = m.dma_pipe;
                buffers = m.buffers;
                sent = m.sent;
              };
              reader = refl;
              acquired = refl;
              status = refl;
            })
        | ByteRead.waits e l ↦
            let q : send_round fd w_fd t ≡ (index_blocked, t') = ground arith in
            subst (Refined s) (sym q) (record {
              after = s;
              run = here;
              pc = SenderPc.waiting;
              ahead = [];
              stands = (refl, refl);
              now = record {
                sender = m.sender;
                socket_pipe = m.socket_pipe ∙ sym l;
                dma_pipe = m.dma_pipe;
                buffers = m.buffers;
                sent = m.sent;
              };
              reader = refl;
              acquired = refl;
              status = refl;
            })
      ]

  pub send_round-Refined :
      (t : AcqSender) (s : System)
      → s.status ≡ running
      → ((i : ℕ) → IsFitting (t.buff_list i).length)
      → Matches SenderPc.testing [] t s
      → Refined s (send_round fd w_fd t)
  send_round-Refined t s on fits m =
      let u : System = record s { sender = SenderPc.waiting } in
      from_next s u _ (work (send_on m.sender on)) refl refl refl (
        waiting-Refined t u fits (record {
          sender = refl;
          socket_pipe = m.socket_pipe;
          dma_pipe = m.dma_pipe;
          buffers = m.buffers;
          sent = m.sent;
        }))

give_back-buff_list :
    (fd w_fd : ℤ) (i : ℕ) (t : AcqSender) → (give_back fd w_fd i t).1.buff_list ≡ t.buff_list
unfolding give_back
give_back-buff_list fd w_fd i t = ground arith

send_buffer-buff_list :
    (fd w_fd : ℤ) (i : ℕ) (l : ℤ) (t : AcqSender)
    → (send_buffer fd w_fd i l t).1.buff_list ≡ t.buff_list
unfolding send_buffer
send_buffer-buff_list fd w_fd i (pos zero) t = give_back-buff_list fd w_fd i t
send_buffer-buff_list fd w_fd i (negsuc n) t = give_back-buff_list fd w_fd i t
send_buffer-buff_list fd w_fd i (pos (suc n)) t =
    let w = writen fd t.socket (t.buff_list i).bytes (suc n) in
    ground (arith, give_back-buff_list fd w_fd i (record t { socket = w.sink }))

pub send_round-buff_list :
    (fd w_fd : ℤ) (t : AcqSender) → (send_round fd w_fd t).1.buff_list ≡ t.buff_list
unfolding send_round
send_round-buff_list fd w_fd t =
    let r = readn t.socket_index 1 in
    let i = get_or r.stored 0 0 in
    ground (
      arith,
      send_buffer-buff_list fd w_fd i (t.buff_list i).length (record t { socket_index = r.left }),
    )
