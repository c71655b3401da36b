-- ===== src/Lifecycle/Signals.antt =====
-- acq_data_trans/main.c and cmd_status_trans/main.c: `sig_handler`, and the process as its clear
-- thread sees it.
use itrace.Prelude.{
  ℕ, suc, ◌≡◌, refl, ap, ◌∙◌, List, [], ◌∷◌, Option, none, some, Bool, true, false, ◌||◌, replicate,
  arith,
}
use itrace.General.{SystemStatus, running, stop}
use itrace.Lifecycle.Sources.{ProcSource}
use itrace.Lifecycle.Clearing.{Effect, clear_thread}

pub data Signal : Type 0 where
  sigint sigpipe other : Signal

-- What the handler changes: `system_status`, the value of `g_sem`, and whether the handler stands
-- installed for the two signals.
pub record Process : Type 0 where
  pub system_status : SystemStatus
  pub g_sem : ℕ
  pub int_handled : Bool
  pub pipe_handled : Bool

-- That of acq_data_trans; Cmd/Signals has that of cmd_status_trans, which also writes a byte.
unfoldable pub sig_handler : Signal → Process → Process
sig_handler sigint p = record p { system_status = stop; g_sem = suc p.g_sem; int_handled = true }
sig_handler sigpipe p = record p { pipe_handled = true }
sig_handler other p = p

unfoldable pub deliver : List Signal → Process → Process
deliver [] p = p
deliver (s ∷ signals) p = deliver signals (sig_handler s p)

-- A process when `main` has set its handlers and its semaphore.
abbrev pub process_start : Process
process_start = record {
  system_status = running;
  g_sem = 0;
  int_handled = true;
  pipe_handled = true;
}

-- What the clear thread of a process does when it runs behind the signals, if there is one: each
-- `sem_wait` takes one from the semaphore, and reads the status.
pub clear_up : (ProcSource → List Effect) → Option ProcSource → Process → List Effect
clear_up clear none p = []
clear_up clear (some sour) p = clear_thread clear (replicate p.g_sem p.system_status) sour

abbrev is_sigint : Signal → Bool
is_sigint sigint = true
is_sigint _ = false

abbrev pub any_sigint : List Signal → Bool
any_sigint [] = false
any_sigint (s ∷ signals) = is_sigint s || any_sigint signals

deliver-stop :
    (signals : List Signal) (p : Process) (k : ℕ)
    → p.system_status ≡ stop
    → p.g_sem ≡ suc k
    → ((deliver signals p).system_status ≡ stop) × (j : ℕ) × ((deliver signals p).g_sem ≡ suc j)
unfolding deliver sig_handler
deliver-stop [] p k e g = (e, k, g)
deliver-stop (sigint ∷ signals) p k e g = deliver-stop signals _ p.g_sem refl refl
deliver-stop (sigpipe ∷ signals) p k e g = deliver-stop signals _ k e g
deliver-stop (other ∷ signals) p k e g = deliver-stop signals _ k e g

deliver-sigint :
    (signals : List Signal) (p : Process)
    → any_sigint signals ≡ true
    → ((deliver signals p).system_status ≡ stop) × (j : ℕ) × ((deliver signals p).g_sem ≡ suc j)
unfolding deliver sig_handler
deliver-sigint [] p e = ground arith
deliver-sigint (sigint ∷ signals) p e = deliver-stop signals _ p.g_sem refl refl
deliver-sigint (sigpipe ∷ signals) p e = deliver-sigint signals _ e
deliver-sigint (other ∷ signals) p e = deliver-sigint signals _ e

deliver-quiet :
    (signals : List Signal) (p : Process)
    → any_sigint signals ≡ false
    → (deliver signals p).g_sem ≡ p.g_sem
unfolding deliver sig_handler
deliver-quiet [] p e = refl
deliver-quiet (sigint ∷ signals) p e = ground arith
deliver-quiet (sigpipe ∷ signals) p e = deliver-quiet signals _ e
deliver-quiet (other ∷ signals) p e = deliver-quiet signals _ e

clear_up-posted :
    (clear : ProcSource → List Effect) (sour : ProcSource) (p : Process) (k : ℕ)
    → p.system_status ≡ stop
    → p.g_sem ≡ suc k
    → clear_up clear (some sour) p ≡ clear_thread clear (stop ∷ replicate k stop) sour
unfolding clear_up
clear_up-posted clear sour p k e g =
    ap (λ n. clear_thread clear (replicate n p.system_status) sour) g
    ∙ ap (λ st. clear_thread clear (replicate (suc k) st) sour) e

-- A process that is sent SIGINT, among other signals, clears up, if it has a clear thread.
pub clear_up-sigint :
    (clear : ProcSource → List Effect) (sour : ProcSource) (signals : List Signal)
    → any_sigint signals ≡ true
    → (k : ℕ) × (clear_up clear (some sour) (deliver signals process_start)
        ≡ clear_thread clear (stop ∷ replicate k stop) sour)
clear_up-sigint clear sour signals e =
    let (st, j, g) = deliver-sigint signals process_start e in
    (j, clear_up-posted clear sour (deliver signals process_start) j st g)

-- Without SIGINT nothing is cleared up.
pub clear_up-quiet :
    (clear : ProcSource → List Effect) (sour : Option ProcSource) (signals : List Signal)
    → any_sigint signals ≡ false
    → clear_up clear sour (deliver signals process_start) ≡ []
unfolding clear_up clear_thread
clear_up-quiet clear none signals e = refl
clear_up-quiet clear (some sour) signals e =
    ap (λ n. clear_thread clear (replicate n (deliver signals process_start).system_status) sour)
      (deliver-quiet signals process_start e)

pub clear_up-none : (clear : ProcSource → List Effect) (p : Process) → clear_up clear none p ≡ []
unfolding clear_up
clear_up-none clear p = refl
