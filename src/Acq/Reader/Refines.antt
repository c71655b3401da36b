-- ===== src/Acq/Reader/Refines.antt =====
-- `read_dma_thread` (acq_data_trans/server.c) refines the relation of the two threads: what it does is a
-- run of the relation, in which only the reading thread and the signal move.
use itrace.Prelude.{ℕ, ◌≡◌, refl, sym, ◌∙◌, subst, List, [], ◌∷◌, ◌++◌, none, ℤ, arith}
use itrace.General.{SystemStatus, running, stop, readn}
use itrace.General.OneByte.{ByteRead, byte, no_byte, readn-ByteRead}
use itrace.Acq.Threads.{
  Buffer, ReaderPc, System, work, fault, sigint, read_on, read_stop, read_take, read_take_fails,
}
use itrace.Acq.Reader.{
  DmaReader, Round, again, index_lost, index_blocked, device_lost, device_blocked, pipe_lost,
  pipe_blocked, fill_buffer, read_round, Outcome, looping, stopped, left, read_dma_thread,
}
use itrace.Acq.Threads.Runs.{Steps, here, then_step, join}
use itrace.Acq.Reader.Match.{pc_of, Matches, Reached, Refined, from_next}
use itrace.Acq.Reader.Calls.{fill_buffer-Refined}

module _ (stream : List ℕ) (fd : ℤ) where
  -- The thread waits for an index.
  waiting-Refined :
      (t : DmaReader) (s : System)
      → Matches stream ReaderPc.waiting t s
      → Refined stream s (read_round fd t)
  unfolding read_round
  waiting-Refined t s m =
      let r = readn t.dma_index 1 in
      let t' : DmaReader = record t { dma_index = r.left } in
      elim (readn-ByteRead t.dma_index) [
        | byte i rest p e st l ↦
            let t'' : DmaReader = record t' { offsets = t.offsets ++ i ∷ [] } in
            let q : read_round fd t ≡ fill_buffer fd i t'' = ground arith in
            let u : System = record s { reader = ReaderPc.got i; dma_pipe = rest } in
            subst (Refined stream s) (sym q) (
              from_next s u stream _ _ (work (read_take m.reader (m.dma_pipe ∙ p))) refl refl refl (
                fill_buffer-Refined stream fd i t'' u t.dev.answers refl (record {
                  reader = refl;
                  dma_pipe = sym l;
                  socket_pipe = m.socket_pipe;
                  buffers = m.buffers;
                  acquired = m.acquired;
                })))
        | no_byte z e ne l ↦
            let q : read_round fd t ≡ (index_lost, t') = ground arith in
            subst (Refined stream s) (sym q) (record {
              after = record s { reader = ReaderPc.gone none [] };
              run = then_step here (fault (read_take_fails m.reader));
              now = record {
                reader = refl;
                dma_pipe = m.dma_pipe ∙ sym l;
                socket_pipe = m.socket_pipe;
                buffers = m.buffers;
                acquired = m.acquired;
              };
              sender = refl;
              sent = refl;
              status = refl;
            })
        | ByteRead.waits e l ↦
            let q : read_round fd t ≡ (index_blocked, t') = ground arith in
            subst (Refined stream s) (sym q) (record {
              after = s;
              run = here;
              now = record {
                reader = m.reader;
                dma_pipe = m.dma_pipe ∙ sym l;
                socket_pipe = m.socket_pipe;
                buffers = m.buffers;
                acquired = m.acquired;
              };
              sender = refl;
              sent = refl;
              status = refl;
            })
      ]

  pub read_round-Refined :
      (t : DmaReader) (s : System)
      → s.status ≡ running
      → Matches stream ReaderPc.testing t s
      → Refined stream s (read_round fd t)
  read_round-Refined t s on m =
      from_next s (record s { reader = ReaderPc.waiting }) stream _ _ (work (read_on m.reader on))
        refl refl refl
        (waiting-Refined t (record s { reader = ReaderPc.waiting })
          (record {
            reader = refl;
            dma_pipe = m.dma_pipe;
            socket_pipe = m.socket_pipe;
            buffers = m.buffers;
            acquired = m.acquired;
          }))

-- Where the thread stands when its loop has come to an end, or waits for the next reading.
abbrev pc_at : Outcome → (ℕ → Buffer) → ReaderPc
pc_at looping buffer = ReaderPc.testing
pc_at stopped buffer = ReaderPc.gone none []
pc_at (left r) buffer = pc_of r buffer

-- From `s` a run of the relation leads to the state of the code; the sending thread has not moved.
pub record IsRun (stream : List ℕ) (s : System) (r : Outcome × DmaReader) : Type 0 where
  pub after : System
  pub run : Steps s after
  pub now : Matches stream (pc_at r.0 r.1.buff_list) r.1 after
  pub sender : after.sender ≡ s.sender
  pub sent : after.sent ≡ s.sent

module _ (stream : List ℕ) (fd : ℤ) where
  behind :
      {s : System} (t : DmaReader) (r : Outcome × DmaReader) (pc : ReaderPc)
      → (first : Reached stream pc t s) → IsRun stream first.after r
      → IsRun stream s r
  behind t r pc first rest = record {
    after = rest.after;
    run = join first.run rest.run;
    now = rest.now;
    sender = rest.sender ∙ first.sender;
    sent = rest.sent ∙ first.sent;
  }

  ended :
      {s : System} (t : DmaReader) (r : Round)
      → Reached stream (pc_of r t.buff_list) t s
      → IsRun stream s (left r, t)
  ended t r v = record {
    after = v.after;
    run = v.run;
    now = v.now;
    sender = v.sender;
    sent = v.sent;
  }

  stop-IsRun :
      (t : DmaReader) (s : System)
      → Matches stream ReaderPc.testing t s
      → IsRun stream s (stopped, t)
  stop-IsRun t s m = record {
    after = record s { status = stop; reader = ReaderPc.gone none [] };
    run = then_step (then_step here sigint) (work (read_stop m.reader refl));
    now = record {
      reader = refl;
      dma_pipe = m.dma_pipe;
      socket_pipe = m.socket_pipe;
      buffers = m.buffers;
      acquired = m.acquired;
    };
    sender = refl;
    sent = refl;
  }

-- Whatever its calls give and whatever readings of the status it makes, all that `read_dma_thread` does
-- is a run of the relation of the two threads, in which the sending thread does not move: the pipes, the
-- buffers, the index in hand and the data acquired are those of the code, also where it leaves its loop
-- or blocks.
pub read_dma_thread-IsRun :
    (stream : List ℕ) (readings : List SystemStatus) (fd : ℤ) (t : DmaReader) (s : System)
    → s.status ≡ running
    → Matches stream ReaderPc.testing t s
    → IsRun stream s (read_dma_thread readings fd t)
unfolding read_dma_thread
read_dma_thread-IsRun stream [] fd t s on m = record {
  after = s;
  run = here;
  now = m;
  sender = refl;
  sent = refl;
}
read_dma_thread-IsRun stream (stop ∷ readings) fd t s on m = stop-IsRun stream fd t s m
read_dma_thread-IsRun stream (running ∷ readings) fd t s on m =
    go (read_round fd t).0 (read_round fd t).1 (read_round-Refined stream fd t s on m)
      (λ t' s' on' m'. read_dma_thread-IsRun stream readings fd t' s' on' m')
  where
    go :
        (r : Round) (t' : DmaReader)
        → Reached stream (pc_of r t'.buff_list) t' s
        → ((t'' : DmaReader) (s'' : System)
            → s''.status ≡ running
            → Matches stream ReaderPc.testing t'' s''
            → IsRun stream s'' (read_dma_thread readings fd t''))
        → IsRun stream s (elim r [ again ↦ read_dma_thread readings fd t' | q ↦ (left q, t') ])
    go again t' v rec =
        behind stream fd t' _ ReaderPc.testing v (rec t' v.after (v.status ∙ on) v.now)
    go index_lost t' v rec = ended stream fd t' index_lost v
    go index_blocked t' v rec = ended stream fd t' index_blocked v
    go (device_lost i) t' v rec = ended stream fd t' (device_lost i) v
    go (device_blocked i) t' v rec = ended stream fd t' (device_blocked i) v
    go (pipe_lost i) t' v rec = ended stream fd t' (pipe_lost i) v
    go (pipe_blocked i) t' v rec = ended stream fd t' (pipe_blocked i) v
