-- ===== src/Cmd/Child/StatusTurns.antt =====
-- cmd_status_trans/server.c: turns of the status thread, each from where the thread stands to the state that
-- `send_status` and `read_status` leave.
use itrace.Prelude.{
  ℕ, suc, ◌≡◌, refl, ◌∙◌, ap, List, [], ◌∷◌, Option, none, some, Bool, true, false, if◌then◌else◌,
  drop, length, ℤ, pos, minus_one, ◌==ℤ◌, replicate,
}
use itrace.Posix.{Answer, Sink, ReadResult, got, failed, is_transient}
use itrace.General.{writen}
use itrace.Cmd.Status.{
  StatusThread, Round, again, device_lost, waiting, blocked, send_status, Outcome, looping, stopped,
  left, no_memory,
}
use itrace.Cmd.Child.{
  StatusPc, testing, at_read, at_send, in_send, gone, Child, status_turn, status, turn, run,
}

-- The status thread's part of the child.
abbrev pub status_of : Child → StatusThread
status_of c = record { dev = c.status_dev; socket_fd = c.socket_fd; socket = c.status_socket }

abbrev pub with_status : Child → StatusPc → StatusThread → Child
with_status c pc t = record c {
  status_pc = pc;
  status_dev = t.dev;
  socket_fd = t.socket_fd;
  status_socket = t.socket;
}

-- The thread is in a `write` to the client.
abbrev IsSending : StatusPc → Type 0
IsSending (in_send fd bs) = Unit
IsSending pc = ⊥

-- Where the thread stands when a round has ended so.
abbrev pub StandsAfter : Round → StatusPc → Type 0
StandsAfter again pc = pc ≡ testing
StandsAfter device_lost pc = pc ≡ gone
StandsAfter waiting pc = pc ≡ at_read
StandsAfter blocked pc = IsSending pc

abbrev pub StandsAt : Outcome → StatusPc → Type 0
StandsAt looping pc = pc ≡ testing
StandsAt stopped pc = pc ≡ gone
StandsAt no_memory pc = pc ≡ gone
StandsAt (left r) pc = StandsAfter r pc

-- Some turns of the status thread lead from `c` to the state `t` of the code; nothing else changes.
pub record Turns (dev_fd : ℤ) (c : Child) (Stands : StatusPc → Type 0) (t : StatusThread)
    : Type 0 where
  pub turns : ℕ
  pub status_pc : StatusPc
  pub ran : run dev_fd (replicate turns status) c ≡ with_status c status_pc t
  pub stands : Stands status_pc

pub before :
    (dev_fd : ℤ) (c : Child) (u t : StatusThread) (pc : StatusPc) (Stands : StatusPc → Type 0)
    → status_turn c.status_pc c ≡ with_status c pc u
    → Turns dev_fd (with_status c pc u) Stands t
    → Turns dev_fd c Stands t
unfolding run turn
before dev_fd c u t pc Stands e r = record {
  turns = suc r.turns;
  status_pc = r.status_pc;
  ran = ap (run dev_fd (replicate r.turns status)) e ∙ r.ran;
  stands = r.stands;
}

pub here :
    (dev_fd : ℤ) (c : Child) (pc : StatusPc) (Stands : StatusPc → Type 0)
    → c.status_pc ≡ pc
    → Stands pc
    → Turns dev_fd c Stands (status_of c)
unfolding run
here dev_fd c pc Stands e st = record {
  turns = 0;
  status_pc = pc;
  ran = ap (λ p. record c { status_pc = p }) e;
  stands = st;
}

-- The turn in which the `writen` to the client comes back with `o`.
sent-Turns :
    (dev_fd : ℤ) (o : Option ℤ) (fd : ℤ) (bs : List ℕ) (sink : Sink) (c : Child)
    → c.status_pc ≡ in_send fd bs
    → status_turn c.status_pc c ≡ elim o [
      | none ↦ record c { status_socket = sink }
      | some ret ↦ record c {
        status_socket = sink;
        status_pc = testing;
        socket_fd = if ret ==ℤ pos (length bs) then c.socket_fd else minus_one;
      }
    ]
    → let r : Round × StatusThread = elim o [
      | none ↦ (blocked, record (status_of c) { socket = sink })
      | some ret ↦
          if ret ==ℤ pos (length bs)
          then (again, record (status_of c) { socket = sink })
          else (again, record (status_of c) { socket = sink; socket_fd = minus_one })
    ] in
      Turns dev_fd c (StandsAfter r.0) r.1
sent-Turns dev_fd none fd bs sink c at e =
    let u : StatusThread = record (status_of c) { socket = sink } in
    before dev_fd c u u (in_send fd bs) _ (e ∙ ap (λ pc. with_status c pc u) at)
      (here dev_fd (with_status c (in_send fd bs) u) (in_send fd bs) IsSending refl tt)
sent-Turns dev_fd (some ret) fd bs sink c at e = go (ret ==ℤ pos (length bs)) e
  where
    go :
        (b : Bool)
        → status_turn c.status_pc c ≡ record c {
          status_socket = sink;
          status_pc = testing;
          socket_fd = if b then c.socket_fd else minus_one;
        }
        → let r : Round × StatusThread =
            if b
            then (again, record (status_of c) { socket = sink })
            else (again, record (status_of c) { socket = sink; socket_fd = minus_one }) in
          Turns dev_fd c (StandsAfter r.0) r.1
    go true e =
        let u : StatusThread = record (status_of c) { socket = sink } in
        before dev_fd c u u testing _ e (here dev_fd (with_status c testing u) testing _ refl refl)
    go false e =
        let u : StatusThread = record (status_of c) { socket = sink; socket_fd = minus_one } in
        before dev_fd c u u testing _ e (here dev_fd (with_status c testing u) testing _ refl refl)

send-Turns :
    (dev_fd : ℤ) (bs : List ℕ) (c : Child)
    → let r = send_status bs (status_of c) in
      Turns dev_fd (record c { status_pc = at_send bs }) (StandsAfter r.0) r.1
unfolding send_status status_turn
send-Turns dev_fd bs c =
    let fd = c.socket_fd in
    let w = writen fd c.status_socket bs (length bs) in
    before dev_fd (record c { status_pc = at_send bs }) (status_of c) _ (in_send fd bs) _ refl
      (sent-Turns dev_fd w.ret fd bs w.sink (record c { status_pc = in_send fd bs }) refl refl)

-- The turn in which the `read` of the device comes back.
pub read-Turns :
    (dev_fd : ℤ) (r : ReadResult) (rest : List Answer) (c : Child)
    → c.status_pc ≡ at_read
    → status_turn c.status_pc c ≡ elim r [
      | got [] ↦ record c {
        status_dev = record { pending = c.status_dev.pending; answers = rest };
        status_pc = testing;
      }
      | got (b ∷ bs) ↦ record c {
        status_dev = record {
          pending = drop (length (b ∷ bs)) c.status_dev.pending;
          answers = rest;
        };
        status_pc = at_send (b ∷ bs);
      }
      | failed e ↦ record c {
        status_dev = record { pending = c.status_dev.pending; answers = rest };
        status_pc = if is_transient e then testing else gone;
      }
    ]
    → let t : StatusThread = status_of c in
      let q : Round × StatusThread = elim r [
        | got [] ↦ (again, record t { dev = record { pending = t.dev.pending; answers = rest } })
        | got (b ∷ bs) ↦ send_status (b ∷ bs) (record t {
          dev = record { pending = drop (length (b ∷ bs)) t.dev.pending; answers = rest };
        })
        | failed e ↦ (
          if is_transient e then again else device_lost,
          record t { dev = record { pending = t.dev.pending; answers = rest } },
        )
      ] in
      Turns dev_fd c (StandsAfter q.0) q.1
read-Turns dev_fd (got []) rest c at e =
    let u : StatusThread = record (status_of c) {
      dev = record { pending = c.status_dev.pending; answers = rest };
    } in
    before dev_fd c u u testing _ e (here dev_fd (with_status c testing u) testing _ refl refl)
read-Turns dev_fd (got (b ∷ bs)) rest c at e =
    let u : StatusThread = record (status_of c) {
      dev = record { pending = drop (length (b ∷ bs)) c.status_dev.pending; answers = rest };
    } in
    before dev_fd c u _ (at_send (b ∷ bs)) _ e
      (send-Turns dev_fd (b ∷ bs) (with_status c (at_send (b ∷ bs)) u))
read-Turns dev_fd (failed x) rest c at e = go (is_transient x) e
  where
    u : StatusThread
    u = record (status_of c) { dev = record { pending = c.status_dev.pending; answers = rest } }

    go :
        (b : Bool)
        → status_turn c.status_pc c ≡ with_status c (if b then testing else gone) u
        → Turns dev_fd c (StandsAfter (if b then again else device_lost)) u
    go true e =
        before dev_fd c u u testing _ e (here dev_fd (with_status c testing u) testing _ refl refl)
    go false e = before dev_fd c u u gone _ e (here dev_fd (with_status c gone u) gone _ refl refl)
