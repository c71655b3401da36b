-- ===== src/Acq/Sender/Delivers.antt =====
-- What `send_acq_data_thread` (acq_data_trans/server.c) has sent when it stands, in any state that the two
-- threads can reach.
use itrace.Prelude.{
  ℕ, ◌≡◌, sym, ap, ◌∙◌, subst, List, [], ◌++◌, take, drop, take-append-drop, append_assoc,
  append-nil, ℤ, arith,
}
use itrace.General.{SystemStatus, running}
use itrace.Acq.Threads.{
  Buffer, payload, SenderPc, System, Work, Fault, Reach, start, next, work, fault, sigint, read_on,
  read_stop, read_take, read_fill, read_pass, send_on, send_stop, send_take, send_data, send_skip,
  send_pass, read_take_fails, read_fill_fails, read_pass_fails, send_take_fails, send_data_fails,
  send_pass_fails,
}
use itrace.Acq.Threads.Safety.{sent-prefix, sent-in_hand}
use itrace.Acq.Threads.Runs.{Steps, here, then_step}
use itrace.Acq.Sender.{
  AcqSender, again, index_lost, index_blocked, socket_lost, socket_blocked, pipe_lost, pipe_blocked,
  Outcome, looping, stopped, left, send_acq_data_thread,
}
use itrace.Acq.Sender.Match.{IsFitting, Matches}
use itrace.Acq.Sender.Refines.{StandsAt, send_acq_data_thread-IsRun}

abbrev AllFit : System → Type 0
AllFit s = (i : ℕ) → IsFitting (s.buffer i).length

Work-fits : {s t : System} → Work s t → AllFit s → AllFit t
Work-fits (read_on e r) h = h
Work-fits (read_stop e r) h = h
Work-fits (read_take e q) h = h
Work-fits (read_fill bs e le) h = λ i. ground (arith, h i)
Work-fits (read_pass e) h = h
Work-fits (send_on e r) h = h
Work-fits (send_stop e r) h = h
Work-fits (send_take e q) h = h
Work-fits (send_data e p) h = h
Work-fits (send_skip e p) h = h
Work-fits (send_pass e) h = h

Fault-fits : {s t : System} → Fault s t → AllFit s → AllFit t
Fault-fits (read_take_fails e) h = h
Fault-fits (read_fill_fails e) h = λ i. ground (arith, h i)
Fault-fits (read_pass_fails e) h = h
Fault-fits (send_take_fails e) h = h
Fault-fits (send_data_fails k e p le) h = h
Fault-fits (send_pass_fails e) h = h

-- No buffer is ever longer than `MAX_DMA_LENGTH`.
pub Reach-fits : {s : System} → Reach s → AllFit s
Reach-fits start = λ i. ground arith
Reach-fits (next r (work w)) = Work-fits w (Reach-fits r)
Reach-fits (next r (fault f)) = Fault-fits f (Reach-fits r)
Reach-fits (next r sigint) = Reach-fits r

pub steps-Reach : {s t : System} → Reach s → Steps s t → Reach t
steps-Reach r here = r
steps-Reach r (then_step q st) = next (steps-Reach r q) st

-- The data sent with a part of the buffer in hand is a prefix too.
ahead-prefix :
    (s : System) (i k : ℕ)
    → Reach s
    → s.sender ≡ SenderPc.got i
    → (rest : List ℕ) × ((s.sent ++ take k (payload (s.buffer i))) ++ rest ≡ s.acquired)
ahead-prefix s i k r e =
    let all = payload (s.buffer i) in
    let (rest, p) = sent-in_hand r e in
    (
      drop k all ++ rest,
      ground (
        arith,
        p,
        take-append-drop k all,
        append_assoc (take k all) (drop k all) rest,
        append_assoc s.sent (take k all) (drop k all ++ rest),
      ),
    )

-- What the socket has taken when the thread stands so.
pub stands-prefix :
    (o : Outcome) (t : AcqSender) (s : System) (pc : SenderPc) (ahead : List ℕ)
    → Reach s
    → StandsAt o t.buff_list pc ahead
    → Matches pc ahead t s
    → (rest : List ℕ) × (t.socket.accepted ++ rest ≡ s.acquired)
stands-prefix o t s pc ahead r st m =
    let (rest, p) = go o st in (rest, ap (λ a. a ++ rest) (sym m.sent) ∙ p)
  where
    none_ahead : ahead ≡ [] → (rest : List ℕ) × ((s.sent ++ ahead) ++ rest ≡ s.acquired)
    none_ahead e =
        let (rest, p) = sent-prefix r in
        (rest, ap (λ a. (s.sent ++ a) ++ rest) e ∙ ap (λ a. a ++ rest) (append-nil s.sent) ∙ p)

    go :
        (o : Outcome)
        → StandsAt o t.buff_list pc ahead
        → (rest : List ℕ) × ((s.sent ++ ahead) ++ rest ≡ s.acquired)
    go looping st = none_ahead st.1
    go stopped st = none_ahead st.1
    go (left again) st = none_ahead st.1
    go (left index_lost) st = none_ahead st.1
    go (left index_blocked) st = none_ahead st.1
    go (left (socket_lost i)) (lost, e, n) = none_ahead n
    go (left (socket_blocked i)) (k, e, n) =
        let (rest, p) = ahead-prefix s i k r (m.sender ∙ e) in
        (
          rest,
          ap (λ a. (s.sent ++ a) ++ rest)
                (n ∙ ap (λ (b : ℕ → Buffer). take k (payload (b i))) (sym m.buffers))
              ∙ p,
        )
    go (left (pipe_lost i)) st = none_ahead st.1
    go (left (pipe_blocked i)) st = none_ahead st.1

-- From any state that the two threads can reach, with the system running and the sending thread at its test,
-- whatever calls and readings of the status follow, what the client's socket has taken when
-- `send_acq_data_thread` stands is a prefix of what the device has delivered, also where the thread has
-- left its loop or blocks within a buffer.
pub send_acq_data_thread-prefix :
    (readings : List SystemStatus) (fd w_fd : ℤ) (t : AcqSender) (s : System)
    → Reach s
    → s.status ≡ running
    → Matches SenderPc.testing [] t s
    → (rest : List ℕ) × ((send_acq_data_thread readings fd w_fd t).1.socket.accepted ++ rest
        ≡ s.acquired)
send_acq_data_thread-prefix readings fd w_fd t s r on m =
    let fits : AllFit s = Reach-fits r in
    let q = send_acq_data_thread readings fd w_fd t in
    let v =
      send_acq_data_thread-IsRun readings fd w_fd t s on
        (λ i. subst (λ (b : ℕ → Buffer). IsFitting (b i).length) m.buffers (fits i)) m in
    let (rest, p) =
      stands-prefix q.0 q.1 v.after v.pc v.ahead (steps-Reach r v.run) v.stands v.now in
    (rest, p ∙ v.acquired)
