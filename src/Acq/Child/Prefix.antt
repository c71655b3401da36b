-- ===== src/Acq/Child/Prefix.antt =====
-- What the client of a child of acq_data_trans (acq_data_trans/server.c) has been sent.
use itrace.Prelude.{
  ℕ, ◌+◌, ◌≤◌, ◌≡◌, refl, sym, ap, ◌∙◌, subst, List, [], ◌∷◌, ◌++◌, Bool, true, false, ℤ, pos,
  negsuc, ◌==ℤ◌, Option, none, some, ◌==◌, if◌then◌else◌, arith,
}
use mathlib.Core.Path.{fun_ext}
use itrace.Acq.Buffers.{DmaBuffer, init_dma_read_buffer}
use itrace.Acq.Threads.{init, start}
use itrace.Acq.Threads.Safety.{sent-prefix}
use itrace.Acq.Child.Rounds.{SentSo, Holds, in_stream}
use itrace.Lifecycle.Sources.{ProcSource, acq_child_source}
use itrace.Acq.Setup
use itrace.Acq.Setup.{
  Pipe, ReadParams, SendParams, Calls, ready, start_reader, start_sender, start_clear,
  open_dma_device, set_up_child,
}
use itrace.Acq.Setup.Laws.{Ended, IsReady, set_up_child-IsSetUp}
use itrace.Acq.Child.Turns.{AreWired, run-Holds}
use itrace.Acq.Child.{
  dma_index_pipe, socket_index_pipe, read_from, write_to, made, child_start, Running, Turn, run,
}

-- The buffers of both indices are made empty.
buffers-empty :
    (area : ℕ) (a0 a1 : Bool) (b0 b1 : DmaBuffer)
    → init_dma_read_buffer a0 0 area ≡ some b0
    → init_dma_read_buffer a1 1 area ≡ some b1
    → init.buffer ≡ (λ i. if i == 0 then made b0 else made b1)
unfolding init_dma_read_buffer
buffers-empty area a0 a1 b0 b1 e0 e1 = fun_ext (λ i. ground arith)

buffers-apart :
    (area : ℕ) (a0 a1 : Bool) (b0 b1 : DmaBuffer)
    → init_dma_read_buffer a0 0 area ≡ some b0
    → init_dma_read_buffer a1 1 area ≡ some b1
    → b0.data_at + b0.capity ≤ b1.data_at
unfolding init_dma_read_buffer
buffers-apart area a0 a1 b0 b1 e0 e1 = ground arith

-- What a child that is ready has started: both threads, with the same buffers, of which the second lies behind
-- the first, and the clear thread behind them.
pub record ThreadsStarted (r : Setup.Child) (opening : List Setup.Effect) : Type 0 where
  pub reader : ReadParams
  pub sender : SendParams
  pub clear : ProcSource
  pub same : (reader.buff_0 ≡ sender.buff_0) × (reader.buff_1 ≡ sender.buff_1)
  pub apart : reader.buff_0.data_at + reader.buff_0.capity ≤ reader.buff_1.data_at
  pub effects :
      r.effects ≡ opening ++ start_reader reader ∷ start_sender sender ∷ start_clear clear ∷ []

==ℤ-refl : (a : ℤ) → (a ==ℤ a) ≡ true
==ℤ-refl (pos n) = ground arith
==ℤ-refl (negsuc n) = ground arith

read_from-ends :
    (dma sock : Pipe)
    → (sock.read_end ==ℤ dma.read_end) ≡ false
    → (read_from dma sock dma.read_end ≡ dma_index_pipe)
      × (read_from dma sock sock.read_end ≡ socket_index_pipe)
unfolding read_from
read_from-ends dma sock apart =
    (ground (arith, ==ℤ-refl dma.read_end), ground (arith, ==ℤ-refl sock.read_end))

write_to-ends :
    (dma sock : Pipe)
    → (sock.write_end ==ℤ dma.write_end) ≡ false
    → (write_to dma sock dma.write_end ≡ dma_index_pipe)
      × (write_to dma sock sock.write_end ≡ socket_index_pipe)
unfolding write_to
write_to-ends dma sock apart =
    (ground (arith, ==ℤ-refl dma.write_end), ground (arith, ==ℤ-refl sock.write_end))

-- The two pipes have different ends, and nothing has been written to the first.
abbrev AreNew : Calls → (dma sock : Pipe) → Type 0
AreNew c dma sock =
    ((sock.read_end ==ℤ dma.read_end) ≡ false)
    × ((sock.write_end ==ℤ dma.write_end) ≡ false)
    × ((c.sinks dma.write_end).accepted ≡ [])

IsReady-Holds :
    (conn_fd : ℤ) (c : Calls) (opening : List Setup.Effect) (r : Setup.Child) (stream : List ℕ)
    (v : IsReady conn_fd c opening r)
    → AreNew c v.dma v.sock
    → (w : ThreadsStarted r opening) × AreWired v.dma v.sock w.reader w.sender
      × Holds stream (child_start w.reader w.sender r stream)
unfolding child_start
IsReady-Holds conn_fd c opening r stream v (reads, writes, new) = (
  record {
    reader = record {
      buff_0 = v.b0;
      buff_1 = v.b1;
      dma_index_r_fd = v.dma.read_end;
      socket_index_w_fd = v.sock.write_end;
      dma_fd = c.opened;
    };
    sender = record {
      buff_0 = v.b0;
      buff_1 = v.b1;
      dma_index_w_fd = v.dma.write_end;
      socket_index_r_fd = v.sock.read_end;
      socket_fd = conn_fd;
    };
    clear =
        acq_child_source c.opened conn_fd v.dma.read_end v.dma.write_end v.sock.read_end
          v.sock.write_end v.b0.data_at v.b1.data_at;
    same = (refl, refl);
    apart = buffers-apart v.area c.allocated_0 c.allocated_1 v.b0 v.b1 v.made_0 v.made_1;
    effects = v.whole;
  },
  record {
    takes = (read_from-ends v.dma v.sock reads).0;
    fills = (write_to-ends v.dma v.sock writes).1;
    sends = (read_from-ends v.dma v.sock reads).1;
    frees = (write_to-ends v.dma v.sock writes).0;
  },
  record {
    at = init;
    reach = start;
    status = refl;
    dma_pipe = sym (v.written.0 ∙ ap (λ l. l ++ 0 ∷ 1 ∷ []) new);
    socket_pipe = refl;
    buffers = buffers-empty v.area c.allocated_0 c.allocated_1 v.b0 v.b1 v.made_0 v.made_1;
    acquired = refl;
    reader = refl;
    sent = (refl, refl);
  },
)

Holds-prefix :
    (stream : List ℕ) (c : Running) → Holds stream c → (rest : List ℕ) × (c.socket ++ rest ≡ stream)
Holds-prefix stream c h = go c.sending h.sent
  where
    go : (b : Bool) → SentSo b stream c.socket h.at → (rest : List ℕ) × (c.socket ++ rest ≡ stream)
    go false v = v
    go true v =
        let (rest, p) = sent-prefix h.reach in
        in_stream c.socket h.at.acquired c.dev stream (rest, ap (λ a. a ++ rest) (sym v.1) ∙ p)
          h.acquired

-- What the client of `r` has been sent, when the threads of the set-up have taken `turns` over the two pipes.
abbrev pub IsSentPrefix :
    (dma sock : Pipe)
    → Setup.Child
    → (opening : List Setup.Effect) → List Turn
    → (stream : List ℕ) → Type 0
IsSentPrefix dma sock r opening turns stream =
    (v : ThreadsStarted r opening) × (rest : List ℕ) × ((run dma sock v.reader v.sender turns
          (child_start v.reader v.sender r stream)).socket
        ++ rest
      ≡ stream)

made_pipe : (o : Option Pipe) (a b : Pipe) → o ≡ some a → o ≡ some b → a ≡ b
made_pipe o a b e f = ap (λ (p : Option Pipe). elim p [ none ↦ a | some x ↦ x ]) (sym e ∙ f)

-- Let the two pipes that the child makes have ends of their own, as `pipe` gives them, and the pipe of free
-- buffers be new. A child of acq_data_trans whose set-up ends with all threads created has started the two
-- threads with the same two buffers, which do not overlap; and with the descriptors that they have been given,
-- in whatever order they take their rounds from then on, whatever the kernel answers to each call and wherever
-- the signal comes, what the client has been sent is a prefix of the stream of the device.
pub set_up_child-prefix :
    (conn_fd : ℤ) (c : Calls) (dma sock : Pipe) (stream : List ℕ) (turns : List Turn)
    → c.dma_index_pipe ≡ some dma
    → c.socket_index_pipe ≡ some sock
    → (sock.read_end ==ℤ dma.read_end) ≡ false
    → (sock.write_end ==ℤ dma.write_end) ≡ false
    → (c.sinks dma.write_end).accepted ≡ []
    → (set_up_child conn_fd c).end ≡ ready
    → IsSentPrefix dma sock (set_up_child conn_fd c) (open_dma_device c.opened).1 turns stream
set_up_child-prefix conn_fd c dma sock stream turns de se reads writes new e =
    let r = set_up_child conn_fd c in
    let opening = (open_dma_device c.opened).1 in
    let v : IsReady conn_fd c opening r =
      subst (λ end. Ended conn_fd c opening r end) e (set_up_child-IsSetUp conn_fd c) in
    let ed = made_pipe c.dma_index_pipe dma v.dma de v.dma_made in
    let es = made_pipe c.socket_index_pipe sock v.sock se v.sock_made in
    let are_new : AreNew c v.dma v.sock =
      subst (λ s. AreNew c v.dma s) es (subst (λ d. AreNew c d sock) ed (reads, writes, new)) in
    let (w, wired, h) = IsReady-Holds conn_fd c opening r stream v are_new in
    let (rest, p) =
      Holds-prefix stream _ (run-Holds v.dma v.sock w.reader w.sender wired turns stream _ h) in
    subst (λ d. IsSentPrefix d sock r opening turns stream) (sym ed)
      (subst (λ s. IsSentPrefix v.dma s r opening turns stream) (sym es) (w, rest, p))
