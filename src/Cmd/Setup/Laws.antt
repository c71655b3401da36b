-- ===== src/Cmd/Setup/Laws.antt =====
-- A child of cmd_status_trans from its set-up to its signals, and the address frame of a SPM.
use itrace.Prelude.{
  ℕ, zero, suc, ◌≡◌, refl, sym, ap, ◌∙◌, List, [], ◌∷◌, none, some, Bool, true, false, ◌&&◌,
  if◌then◌else◌, ℤ, pos, negsuc, is_pos, replicate, Bool-cases, inl, inr,
}
use itrace.General.{stop}
use itrace.Lifecycle.Sources.{cmd_child_source}
use itrace.Lifecycle.Clearing
use itrace.Lifecycle.Clearing.{reset, close, exit_process, clear_thread, cmd_clear, child_clear}
use itrace.Lifecycle.Signals.{
  Signal, any_sigint, deliver, process_start, clear_up, clear_up-sigint, clear_up-quiet,
  clear_up-none,
}
use itrace.Cmd.Setup.{
  Calls, open_cmd_status_device, start_threads, set_up_from, set_up_child, clear_source,
}

start_threads-source :
    (dev conn : ℤ) (rd sd cl : Bool)
    → clear_source (start_threads dev conn rd sd cl)
      ≡ (if rd && (sd && cl) then some (cmd_child_source dev conn) else none)
unfolding start_threads
start_threads-source dev conn false sd cl = refl
start_threads-source dev conn true false cl = refl
start_threads-source dev conn true true false = refl
start_threads-source dev conn true true true = refl

-- Everything that a clear thread needs has been set up.
abbrev pub all_created : Calls → ℤ → Bool
all_created c o = is_pos o && (c.reader_created && (c.sender_created && c.clear_created))

set_up_from-source :
    (conn : ℤ) (c : Calls) (o : ℤ)
    → clear_source (set_up_from conn c o)
      ≡ (if all_created c o then some (cmd_child_source o conn) else none)
unfolding set_up_from open_cmd_status_device
set_up_from-source conn c (pos zero) = refl
set_up_from-source conn c (negsuc n) = refl
set_up_from-source conn c (pos (suc n)) =
    start_threads-source (pos (suc n)) conn c.reader_created c.sender_created c.clear_created

-- What the clear thread of a complete child does.
abbrev pub clearing : (dev conn : ℤ) → List Clearing.Effect
clearing dev conn = reset dev ∷ close dev ∷ close conn ∷ exit_process ∷ []

cleared :
    (conn n : ℕ) (signals : List Signal)
    → clear_up cmd_clear
        (some (cmd_child_source (pos (suc n)) (pos (suc conn))))
        (deliver signals process_start)
      ≡ (if any_sigint signals then clearing (pos (suc n)) (pos (suc conn)) else [])
cleared conn n signals = elim (Bool-cases (any_sigint signals)) [
  | inl e ↦
      let (k, up) =
        clear_up-sigint cmd_clear (cmd_child_source (pos (suc n)) (pos (suc conn))) signals e in
      up
      ∙ (child_clear n conn 0 0 0 0 0 0 (stop ∷ replicate k stop) (replicate k stop) 0 refl).0
      ∙ ap (λ b. if b then clearing (pos (suc n)) (pos (suc conn)) else []) (sym e)
  | inr e ↦
      clear_up-quiet cmd_clear (some (cmd_child_source (pos (suc n)) (pos (suc conn)))) signals e
      ∙ ap (λ b. if b then clearing (pos (suc n)) (pos (suc conn)) else []) (sym e)
]

selected :
    (conn : ℕ) (o : ℤ) (b : Bool) (signals : List Signal)
    → clear_up cmd_clear
        (if is_pos o && b then some (cmd_child_source o (pos (suc conn))) else none)
        (deliver signals process_start)
      ≡ (if (is_pos o && b) && any_sigint signals then clearing o (pos (suc conn)) else [])
selected conn (pos zero) b signals = clear_up-none cmd_clear (deliver signals process_start)
selected conn (negsuc n) b signals = clear_up-none cmd_clear (deliver signals process_start)
selected conn (pos (suc n)) false signals = clear_up-none cmd_clear (deliver signals process_start)
selected conn (pos (suc n)) true signals = cleared conn n signals

-- Whatever signals it gets, a child of cmd_status_trans that has set itself up resets the device,
-- closes the device and the client's socket and exits if SIGINT is among the signals, the device
-- was opened and all three threads were created; otherwise nothing is cleared up, and the process
-- does not exit.
pub set_up_child-clear_up :
    (conn : ℕ) (c : Calls) (signals : List Signal)
    → clear_up cmd_clear
        (clear_source (set_up_child (pos (suc conn)) c))
        (deliver signals process_start)
      ≡ (if all_created c c.opened && any_sigint signals
          then clearing c.opened (pos (suc conn))
          else [])
unfolding set_up_child
set_up_child-clear_up conn c signals =
    ap (λ s. clear_up cmd_clear s (deliver signals process_start))
      (set_up_from-source (pos (suc conn)) c c.opened)
    ∙ selected conn c.opened (c.reader_created && (c.sender_created && c.clear_created)) signals
