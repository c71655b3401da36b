-- ===== src/Cmd/Signals.antt =====
-- cmd_status_trans/main.c: `sig_handler`, which on SIGINT also writes a byte with
-- `writen_to_cmd_status_dev`, from the address that the character 0xff is taken for.
mod Tests
use itrace.Prelude.{
  ℕ, zero, suc, ◌≡◌, ◌≤◌, refl, ap, ◌∙◌, sym, List, [], ◌∷◌, Option, none, some, Bool, true, false,
  ◌&&◌, if◌then◌else◌, length, replicate, ℤ, pos, is_neg, arith, Bool-cases, inl, inr,
}
use itrace.Posix.{Sink, refuse, other}
use itrace.General.{stop}
use itrace.Cmd.Device.{writen_to_cmd_status_dev}
use itrace.Cmd.Device.Fault.{writen_to_cmd_status_dev-fault}
use itrace.Cmd.Setup.{Calls, clear_source, set_up_child}
use itrace.Cmd.Setup.Laws.{all_created, clearing, set_up_child-clear_up}
use itrace.Lifecycle.Clearing.{cmd_clear}
use itrace.Lifecycle.Signals.{
  process_start, clear_up, any_sigint, Signal, sigint, sigpipe, Process, sig_handler, deliver,
}
use itrace.Lifecycle.Signals

-- The process, what stands behind the descriptor `cmd_status_fd` of main.c, and whether the handler waits
-- in its `write`.
pub record CmdProcess : Type 0 where
  pub process : Process
  pub dev : Sink
  pub waits : Bool

-- A process when `main` has set its handlers and its semaphore.
abbrev pub cmd_start : Sink → CmdProcess
cmd_start dev = record { process = process_start; dev = dev; waits = false }

-- `at_pointer` are the bytes at the address.
cmd_sig_handler : (cmd_status_fd : ℤ) → (at_pointer : List ℕ) → Signal → CmdProcess → CmdProcess
cmd_sig_handler cmd_status_fd at_pointer sigint c =
    let w = writen_to_cmd_status_dev cmd_status_fd c.dev at_pointer 1 in
    let p = c.process in
    elim w.ret [
      | none ↦ record c { dev = w.sink; waits = true }
      | some ret ↦ record c {
        dev = w.sink;
        process = record p { system_status = stop; g_sem = suc p.g_sem; int_handled = true };
      }
    ]
cmd_sig_handler cmd_status_fd at_pointer sigpipe c =
    let p = c.process in record c { process = record p { pipe_handled = true } }
cmd_sig_handler cmd_status_fd at_pointer Signals.other c = c

-- A handler that waits keeps the signals behind it waiting.
pub cmd_deliver :
    (cmd_status_fd : ℤ) → (at_pointer : List ℕ) → List Signal → CmdProcess → CmdProcess
unfolding cmd_sig_handler
cmd_deliver cmd_status_fd at_pointer [] c = c
cmd_deliver cmd_status_fd at_pointer (s ∷ signals) c =
    let rest =
      cmd_deliver cmd_status_fd at_pointer signals (cmd_sig_handler cmd_status_fd at_pointer s c) in
    if c.waits then c else rest

-- Of all that a signal handler changes, the process comes to the same as in acq_data_trans.
record SameEffect (s : Signal) (c d : CmdProcess) : Type 0 where
  process : d.process ≡ sig_handler s c.process
  accepted : d.dev.accepted ≡ c.dev.accepted
  waits : d.waits ≡ c.waits

-- The kernel has at least `n` answers, which all refuse the call for good.
Faults : ℕ → Sink → Type 0
Faults n s = (k : ℕ) × (n ≤ k) × (s.answers ≡ replicate k (refuse other))

cmd_sig_handler-SameEffect :
    (fd : ℤ) (at_pointer : List ℕ) (s : Signal) (n : ℕ) (c : CmdProcess)
    → Faults (suc n) c.dev
    → let d = cmd_sig_handler fd at_pointer s c in SameEffect s c d × Faults n d.dev
unfolding cmd_sig_handler sig_handler Faults
cmd_sig_handler-SameEffect fd bytes sigint n c (zero, le, e) = absurd (omega arith)
cmd_sig_handler-SameEffect fd bytes sigint n c (suc k, le, e) =
    let v = writen_to_cmd_status_dev-fault fd c.dev bytes k e in
    (
      record {
        process = ground (arith, v.0);
        accepted = ground (arith, v.0, v.1);
        waits = ground (arith, v.0);
      },
      (v.2, omega (arith, v.3), ground (arith, v.0, v.4)),
    )
cmd_sig_handler-SameEffect fd bytes sigpipe n c (k, le, e) =
    (record { process = refl; accepted = refl; waits = refl }, (k, omega arith, e))
cmd_sig_handler-SameEffect fd bytes Signals.other n c (k, le, e) =
    (record { process = refl; accepted = refl; waits = refl }, (k, omega arith, e))

cmd_deliver-next :
    (fd : ℤ) (at_pointer : List ℕ) (s : Signal) (signals : List Signal) (c : CmdProcess)
    → c.waits ≡ false
    → cmd_deliver fd at_pointer (s ∷ signals) c
      ≡ cmd_deliver fd at_pointer signals (cmd_sig_handler fd at_pointer s c)
unfolding cmd_deliver
cmd_deliver-next fd bytes s signals c w =
    ap (λ b. if b then c else cmd_deliver fd bytes signals (cmd_sig_handler fd bytes s c)) w

cmd_deliver-same :
    (fd : ℤ) (at_pointer : List ℕ) (signals : List Signal) (c : CmdProcess)
    → c.waits ≡ false
    → Faults (length signals) c.dev
    → let r = cmd_deliver fd at_pointer signals c in
      (r.process ≡ deliver signals c.process)
      × (r.dev.accepted ≡ c.dev.accepted)
      × (r.waits ≡ false)
unfolding deliver cmd_deliver
cmd_deliver-same fd bytes [] c w f = (refl, refl, w)
cmd_deliver-same fd bytes (s ∷ signals) c w f =
    let d = cmd_sig_handler fd bytes s c in
    let (v, g) = cmd_sig_handler-SameEffect fd bytes s (length signals) c f in
    let ih = cmd_deliver-same fd bytes signals d (v.waits ∙ w) g in
    let q = cmd_deliver-next fd bytes s signals c w in
    (
      ap (λ r. r.process) q ∙ ih.0 ∙ ap (deliver signals) v.process,
      ap (λ r. r.dev.accepted) q ∙ ih.1 ∙ v.accepted,
      ap (λ r. r.waits) q ∙ ih.2,
    )

cmd_deliver-deliver :
    (cmd_status_fd : ℤ) (at_pointer : List ℕ) (signals : List Signal) (c : CmdProcess) (n : ℕ)
    → c.waits ≡ false
    → c.dev.answers ≡ replicate n (refuse other)
    → length signals ≤ n
    → let r = cmd_deliver cmd_status_fd at_pointer signals c in
      (r.process ≡ deliver signals c.process)
      × (r.dev.accepted ≡ c.dev.accepted)
      × (r.waits ≡ false)
unfolding Faults
cmd_deliver-deliver fd bytes signals c n w e le = cmd_deliver-same fd bytes signals c w (n, le, e)

-- As POSIX has it for an address that is not the process's, let every `write` from it be refused with an
-- error that is not transient (EFAULT). Then, whatever the descriptor and the signals, the handler of
-- cmd_status_trans writes nothing and never waits; and a child that has set itself up resets the device,
-- closes the device and the socket of the client and exits if SIGINT is among the signals, the device was
-- opened and all three threads were created; otherwise nothing is cleared up, and it does not exit.
pub set_up_child-cmd_clear_up :
    (conn : ℕ) (calls : Calls) (cmd_status_fd : ℤ) (at_pointer : List ℕ) (signals : List Signal)
    (dev : Sink) (n : ℕ)
    → dev.answers ≡ replicate n (refuse other)
    → length signals ≤ n
    → let r = cmd_deliver cmd_status_fd at_pointer signals (cmd_start dev) in
      (clear_up cmd_clear (clear_source (set_up_child (pos (suc conn)) calls)) r.process ≡ (
        if all_created calls calls.opened && any_sigint signals
        then clearing calls.opened (pos (suc conn))
        else []))
      × (r.dev.accepted ≡ dev.accepted)
      × (r.waits ≡ false)
set_up_child-cmd_clear_up conn calls fd bytes signals dev n e le =
    let v = cmd_deliver-deliver fd bytes signals (cmd_start dev) n refl e le in
    (
      ap (λ p. clear_up cmd_clear (clear_source (set_up_child (pos (suc conn)) calls)) p) v.0
          ∙ set_up_child-clear_up conn calls signals,
      v.1,
      v.2,
    )
