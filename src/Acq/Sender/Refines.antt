-- ===== src/Acq/Sender/Refines.antt =====
-- `send_acq_data_thread` (acq_data_trans/server.c) refines the relation of the two threads: what it does
-- is a run of the relation, in which only the sending thread and the signal move.
use itrace.Prelude.{ℕ, ◌≡◌, refl, sym, ap, ◌∙◌, subst, List, [], ◌∷◌, ◌++◌, none, ℤ}
use itrace.General.{SystemStatus, running, stop}
use itrace.Acq.Threads.{Buffer, SenderPc, System, work, sigint, send_stop}
use itrace.Acq.Threads.Runs.{Steps, here, then_step, join}
use itrace.Acq.Sender.{
  AcqSender, Round, again, index_lost, index_blocked, socket_lost, socket_blocked, pipe_lost,
  pipe_blocked, send_round, Outcome, looping, stopped, left, send_acq_data_thread,
}
use itrace.Acq.Sender.Match.{IsFitting, Matches, Stands, Reached}
use itrace.Acq.Sender.Rounds.{send_round-Refined, send_round-buff_list}

-- Where the thread stands when its loop has come to an end, or waits for the next reading.
abbrev pub StandsAt : Outcome → (ℕ → Buffer) → SenderPc → List ℕ → Type 0
StandsAt looping buffer pc ahead = (pc ≡ SenderPc.testing) × (ahead ≡ [])
StandsAt stopped buffer pc ahead = (pc ≡ SenderPc.gone none []) × (ahead ≡ [])
StandsAt (left r) buffer pc ahead = Stands r buffer pc ahead

-- From `s` a run of the relation leads to the state of the code; the reading thread has not moved.
pub record IsRun (s : System) (r : Outcome × AcqSender) : Type 0 where
  pub after : System
  pub run : Steps s after
  pub pc : SenderPc
  pub ahead : List ℕ
  pub stands : StandsAt r.0 r.1.buff_list pc ahead
  pub now : Matches pc ahead r.1 after
  pub reader : after.reader ≡ s.reader
  pub acquired : after.acquired ≡ s.acquired

behind :
    (r : Round) (t : AcqSender) (s : System) (q : Outcome × AcqSender)
    → (first : Reached r t s) → IsRun first.after q
    → IsRun s q
behind r t s q first rest = record {
  after = rest.after;
  run = join first.run rest.run;
  pc = rest.pc;
  ahead = rest.ahead;
  stands = rest.stands;
  now = rest.now;
  reader = rest.reader ∙ first.reader;
  acquired = rest.acquired ∙ first.acquired;
}

ended : (r : Round) (t : AcqSender) (s : System) → Reached r t s → IsRun s (left r, t)
ended r t s v = record {
  after = v.after;
  run = v.run;
  pc = v.pc;
  ahead = v.ahead;
  stands = v.stands;
  now = v.now;
  reader = v.reader;
  acquired = v.acquired;
}

stop-IsRun : (t : AcqSender) (s : System) → Matches SenderPc.testing [] t s → IsRun s (stopped, t)
stop-IsRun t s m = record {
  after = record s { status = stop; sender = SenderPc.gone none [] };
  run = then_step (then_step here sigint) (work (send_stop m.sender refl));
  pc = SenderPc.gone none [];
  ahead = [];
  stands = (refl, refl);
  now = record {
    sender = refl;
    socket_pipe = m.socket_pipe;
    dma_pipe = m.dma_pipe;
    buffers = m.buffers;
    sent = m.sent;
  };
  reader = refl;
  acquired = refl;
}

-- A round that has ended with the next test stands at that test.
at_test :
    (t : AcqSender) (s : System) (v : Reached again t s) → Matches SenderPc.testing [] t v.after
at_test t s v = record {
  sender = v.now.sender ∙ v.stands.0;
  socket_pipe = v.now.socket_pipe;
  dma_pipe = v.now.dma_pipe;
  buffers = v.now.buffers;
  sent = ap (λ a. v.after.sent ++ a) (sym v.stands.1) ∙ v.now.sent;
}

-- If no buffer is longer than `MAX_DMA_LENGTH`, then whatever its calls give and whatever readings of the
-- status it makes, all that `send_acq_data_thread` does is a run of the relation of the two threads, in
-- which the reading thread does not move: the pipes, the index in hand and the data sent are those of
-- the code, also where it leaves its loop or blocks; only while a transfer to the client blocks has a
-- part of the buffer in hand gone ahead.
pub send_acq_data_thread-IsRun :
    (readings : List SystemStatus) (fd w_fd : ℤ) (t : AcqSender) (s : System)
    → s.status ≡ running
    → ((i : ℕ) → IsFitting (t.buff_list i).length)
    → Matches SenderPc.testing [] t s
    → IsRun s (send_acq_data_thread readings fd w_fd t)
unfolding send_acq_data_thread
send_acq_data_thread-IsRun [] fd w_fd t s on fits m = record {
  after = s;
  run = here;
  pc = SenderPc.testing;
  ahead = [];
  stands = (refl, refl);
  now = m;
  reader = refl;
  acquired = refl;
}
send_acq_data_thread-IsRun (stop ∷ readings) fd w_fd t s on fits m = stop-IsRun t s m
send_acq_data_thread-IsRun (running ∷ readings) fd w_fd t s on fits m =
    go (send_round fd w_fd t).0 (send_round fd w_fd t).1 (send_round-buff_list fd w_fd t)
      (send_round-Refined fd w_fd t s on fits m)
      (λ t' s' on' fits' m'. send_acq_data_thread-IsRun readings fd w_fd t' s' on' fits' m')
  where
    go :
        (r : Round) (t' : AcqSender)
        → t'.buff_list ≡ t.buff_list
        → Reached r t' s
        → ((t'' : AcqSender) (s'' : System)
            → s''.status ≡ running
            → ((i : ℕ) → IsFitting (t''.buff_list i).length)
            → Matches SenderPc.testing [] t'' s''
            → IsRun s'' (send_acq_data_thread readings fd w_fd t''))
        → IsRun s (elim r [ again ↦ send_acq_data_thread readings fd w_fd t' | q ↦ (left q, t') ])
    go again t' same v rec = behind again t' s _ v (
        rec t' v.after (v.status ∙ on)
          (λ i. subst (λ (b : ℕ → Buffer). IsFitting (b i).length) (sym same) (fits i))
          (at_test t' s v))
    go index_lost t' same v rec = ended index_lost t' s v
    go index_blocked t' same v rec = ended index_blocked t' s v
    go (socket_lost i) t' same v rec = ended (socket_lost i) t' s v
    go (socket_blocked i) t' same v rec = ended (socket_blocked i) t' s v
    go (pipe_lost i) t' same v rec = ended (pipe_lost i) t' s v
    go (pipe_blocked i) t' same v rec = ended (pipe_blocked i) t' s v
