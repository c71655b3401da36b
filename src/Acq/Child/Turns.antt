-- ===== src/Acq/Child/Turns.antt =====
-- Each turn of a child of acq_data_trans (acq_data_trans/server.c) keeps what holds of it.
use itrace.Prelude.{
  ℕ, ◌≡◌, refl, sym, ap, ◌∙◌, subst, List, [], ◌∷◌, ◌++◌, Bool, true, false, append-nil, ℤ,
}
use itrace.Posix.{Answer}
use itrace.General.{SystemStatus, running, stop}
use itrace.Acq.Threads.{Buffer, ReaderPc, SenderPc, System, init, Reach, start, next}
use itrace.Acq.Threads
use itrace.Acq.Threads.Safety.{sent-prefix}
use itrace.Acq.Reader.{read_round}
use itrace.Acq.Reader.Refines.{read_round-Refined}
use itrace.Acq.Sender.{send_round}
use itrace.Acq.Sender.Match.{IsFitting}
use itrace.Acq.Sender.Rounds.{send_round-Refined, send_round-buff_list}
use itrace.Acq.Sender.Delivers.{Reach-fits}
use itrace.Acq.Child.Rounds.{
  When, SentSo, Holds, SentSo-kept, When-kept, in_stream, after_read-Holds, after_send-Holds,
}
use itrace.Acq.Setup.{Pipe, ReadParams, SendParams}
use itrace.Acq.Child.{
  IndexPipe, dma_index_pipe, socket_index_pipe, read_from, write_to, Running, Turn, read_turn,
  send_turn, sigint, reader_of, sender_of, after_read, after_send, turn, run,
}

-- The descriptors that the threads have are the ends of the two pipes, each of its own.
pub record AreWired (dma sock : Pipe) (r : ReadParams) (p : SendParams) : Type 0 where
  pub takes : read_from dma sock r.dma_index_r_fd ≡ dma_index_pipe
  pub fills : write_to dma sock r.socket_index_w_fd ≡ socket_index_pipe
  pub sends : read_from dma sock p.socket_index_r_fd ≡ socket_index_pipe
  pub frees : write_to dma sock p.dma_index_w_fd ≡ dma_index_pipe

read_turn-Holds :
    (from to : IndexPipe)
    → from ≡ dma_index_pipe
    → to ≡ socket_index_pipe
    → (fd : ℤ) (index device pipe : List Answer) (stream : List ℕ) (c : Running) → Holds stream c
    → (b : Bool) (st : SystemStatus) → c.reading ≡ b
    → c.status ≡ st
    → Holds stream (elim b [
      | false ↦ c
      | true ↦ elim st [
        | stop ↦ record c { reading = false }
        | running ↦ after_read from to c (read_round fd (reader_of from to index device pipe c))
      ]
    ])
unfolding reader_of
read_turn-Holds from to ef et fd index device pipe stream c h false st e f = h
read_turn-Holds from to ef et fd index device pipe stream c h true stop e f = record {
  at = h.at;
  reach = h.reach;
  status = h.status;
  dma_pipe = h.dma_pipe;
  socket_pipe = h.socket_pipe;
  buffers = h.buffers;
  acquired = h.acquired;
  reader = tt;
  sent = h.sent;
}
read_turn-Holds from to ef et fd index device pipe stream c h true running e f =
    rw (ef, et)
      (after_read-Holds stream c _ h (
        read_round-Refined stream fd
          (reader_of dma_index_pipe socket_index_pipe index device pipe c) h.at (h.status ∙ f)
          (record {
            reader = subst (λ b. When b (h.at.reader ≡ ReaderPc.testing)) e h.reader;
            dma_pipe = h.dma_pipe;
            socket_pipe = h.socket_pipe;
            buffers = h.buffers;
            acquired = h.acquired;
          })))

send_turn-Holds :
    (from to : IndexPipe)
    → from ≡ socket_index_pipe
    → to ≡ dma_index_pipe
    → (fd w_fd : ℤ) (index socket pipe : List Answer) (stream : List ℕ) (c : Running)
    → Holds stream c
    → (b : Bool) (st : SystemStatus) → c.sending ≡ b
    → c.status ≡ st
    → Holds stream (elim b [
      | false ↦ c
      | true ↦ elim st [
        | stop ↦ record c { sending = false }
        | running ↦
            after_send from to c (send_round fd w_fd (sender_of from to index socket pipe c))
      ]
    ])
unfolding sender_of
send_turn-Holds from to ef et fd w_fd index socket pipe stream c h false st e f = h
send_turn-Holds from to ef et fd w_fd index socket pipe stream c h true stop e f =
    let v = subst (λ b. SentSo b stream c.socket h.at) e h.sent in
    let (rest, p) = sent-prefix h.reach in
    record {
      at = h.at;
      reach = h.reach;
      status = h.status;
      dma_pipe = h.dma_pipe;
      socket_pipe = h.socket_pipe;
      buffers = h.buffers;
      acquired = h.acquired;
      reader = h.reader;
      sent =
          in_stream c.socket h.at.acquired c.dev stream (rest, ap (λ a. a ++ rest) (sym v.1) ∙ p)
            h.acquired;
    }
send_turn-Holds from to ef et fd w_fd index socket pipe stream c h true running e f =
    let v = subst (λ b. SentSo b stream c.socket h.at) e h.sent in
    let t = sender_of socket_index_pipe dma_index_pipe index socket pipe c in
    let fits = Reach-fits h.reach in
    rw (ef, et)
      (after_send-Holds stream c _ h (send_round-buff_list fd w_fd t) (
        send_round-Refined fd w_fd t h.at (h.status ∙ f)
          (λ i. subst (λ (b : ℕ → Buffer). IsFitting (b i).length) h.buffers (fits i))
          (record {
            sender = v.0;
            socket_pipe = h.socket_pipe;
            dma_pipe = h.dma_pipe;
            buffers = h.buffers;
            sent = append-nil h.at.sent ∙ v.1;
          })))

turn-Holds :
    (dma sock : Pipe) (r : ReadParams) (p : SendParams)
    → AreWired dma sock r p
    → (t : Turn) (stream : List ℕ) (c : Running) → Holds stream c
    → Holds stream (turn dma sock r p t c)
unfolding turn
turn-Holds dma sock r p w (read_turn index device pipe) stream c h =
    read_turn-Holds _ _ w.takes w.fills r.socket_index_w_fd index device pipe stream c h c.reading
      c.status refl refl
turn-Holds dma sock r p w (send_turn index socket pipe) stream c h =
    send_turn-Holds _ _ w.sends w.frees p.socket_fd p.dma_index_w_fd index socket pipe stream c h
      c.sending c.status refl refl
turn-Holds dma sock r p w sigint stream c h = record {
  at = record (h.at) { status = stop };
  reach = next h.reach Threads.sigint;
  status = refl;
  dma_pipe = h.dma_pipe;
  socket_pipe = h.socket_pipe;
  buffers = h.buffers;
  acquired = h.acquired;
  reader = When-kept c.reading h.at (record (h.at) { status = stop }) refl h.reader;
  sent =
      SentSo-kept c.sending stream c.socket h.at (record (h.at) { status = stop }) refl refl h.sent;
}

pub run-Holds :
    (dma sock : Pipe) (r : ReadParams) (p : SendParams)
    → AreWired dma sock r p
    → (turns : List Turn) (stream : List ℕ) (c : Running) → Holds stream c
    → Holds stream (run dma sock r p turns c)
unfolding run
run-Holds dma sock r p w [] stream c h = h
run-Holds dma sock r p w (t ∷ turns) stream c h =
    run-Holds dma sock r p w turns stream (turn dma sock r p t c)
      (turn-Holds dma sock r p w t stream c h)
