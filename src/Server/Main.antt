-- ===== src/Server/Main.antt =====
-- cmd_status_trans/main.c and acq_data_trans/main.c: `main`. At this commit it starts a test and then waits for ever;
-- what stands behind that loop, the server of the board, is a function of its own here.
use itrace.Prelude.{
  ℕ, ◌≡◌, ◌≤◌, ◌<◌, ◌⊎◌, ◌≢◌, refl, Option, none, some, Bool, true, false, not, ◌||◌, ltb, leb,
  ◌==◌, if◌then◌else◌, get_or, ℤ, pos, negsuc, is_neg, arith,
}
use itrace.Posix.{Sink}
use itrace.Cmd
use itrace.Cmd.Setup.{ip_write_cmd}
use itrace.Acq
use itrace.Server.{
  Calls, Server, create_acq_data_trans_server, CmdServer, create_cmd_status_trans_server,
}
use itrace.Server.Errors.{Guarded, create_cmd_status_trans_server-Guarded}

data Started : Type 0 where
  returned : Started  -- "failed!. exit"
  pausing : Started  -- in the first `while(1)`

-- `main` of both programs, by whether the thread of the test is created.
main : (created : Bool) → Started
main created = if not created then returned else pausing

-- The address of the board, as `atoi` gives it.
check_address : (argc : ℕ) → (ip_no : ℤ) → Option ℕ
check_address argc (negsuc n) = none
check_address argc (pos n) =
    if not (argc == 2) then none else if ltb n 80 || leb 255 n then none else some n

pub data CmdMain : Type 0 where
  quit : CmdMain  -- "not find IP no", "get invaild ip address"
  no_semaphore : CmdMain
  served : (ip_no : ℕ) → CmdServer → CmdMain

-- The rest of `main` of cmd_status_trans, by what `sem_init` gives and what the server meets.
pub cmd_status_main :
    (argc : ℕ) → (ip_no sem_init : ℤ) → (spm_opened : ℤ) → Sink → Calls → Cmd.Setup.Calls → CmdMain
cmd_status_main argc ip_no sem_init spm_opened dev c calls = elim (check_address argc ip_no) [
  | none ↦ quit
  | some rsv ↦
      if is_neg sem_init
      then no_semaphore
      else served rsv (create_cmd_status_trans_server rsv spm_opened dev c calls)
]

-- The rest of `main` of acq_data_trans; `none` if there is no semaphore.
acq_data_main : (sem_init : ℤ) → Calls → Acq.Setup.Calls → Option (Server Acq.Setup.Child)
acq_data_main sem_init c calls =
    if is_neg sem_init then none else some (create_acq_data_trans_server c calls)

abbrev IsInvalid : (argc : ℕ) → (ip_no : ℤ) → Type 0
IsInvalid argc (negsuc n) = Unit
IsInvalid argc (pos n) = (argc ≢ 2) ⊎ (n < 80) ⊎ (255 ≤ n)

-- Where the program goes on, its address is one of 80 to 254, and stands unchanged in the frame of a SPM.
abbrev pub Addressed :
    (argc : ℕ)
    → (ip_no sem_init : ℤ) → (opened : ℤ) → Sink
    → Calls
    → Cmd.Setup.Calls
    → CmdMain
    → Type 0
Addressed argc ip_no sem_init opened dev c calls quit = IsInvalid argc ip_no
Addressed argc ip_no sem_init opened dev c calls no_semaphore = is_neg sem_init ≡ true
Addressed argc ip_no sem_init opened dev c calls (served rsv server) =
    (ip_no ≡ pos rsv)
    × (argc ≡ 2)
    × (80 ≤ rsv)
    × (rsv < 255)
    × (get_or (ip_write_cmd rsv) 17 0 ≡ rsv)
    × Guarded rsv opened dev c calls server

abbrev InRange : (argc : ℕ) → (ip_no : ℤ) → Option ℕ → Type 0
InRange argc ip_no none = IsInvalid argc ip_no
InRange argc ip_no (some rsv) = (ip_no ≡ pos rsv) × (argc ≡ 2) × (80 ≤ rsv) × (rsv < 255)

check_address-InRange : (argc : ℕ) (ip_no : ℤ) → InRange argc ip_no (check_address argc ip_no)
unfolding check_address
check_address-InRange argc (negsuc n) = tt
check_address-InRange argc (pos n) = ground arith

address-same : (rsv : ℕ) → rsv < 255 → get_or (ip_write_cmd rsv) 17 0 ≡ rsv
unfolding ip_write_cmd
address-same rsv h = omega arith

-- `main` of cmd_status_trans, behind its first loop, quits only for a number of arguments other than two, the
-- program's name counted, or an address outside 80 to 254, and leaves with no semaphore only where there is
-- none; where it goes on, the server gets the address, byte 17 of the frame made with it is the address
-- itself, and the server comes to what is stated of `create_cmd_status_trans_server`.
pub cmd_status_main-Addressed :
    (argc : ℕ) (ip_no sem_init opened : ℤ) (dev : Sink) (c : Calls) (calls : Cmd.Setup.Calls)
    → Addressed argc ip_no sem_init opened dev c calls
        (cmd_status_main argc ip_no sem_init opened dev c calls)
unfolding cmd_status_main
cmd_status_main-Addressed argc ip_no sem_init opened dev c calls =
    go (check_address argc ip_no) (check_address-InRange argc ip_no)
  where
    go :
        (o : Option ℕ)
        → InRange argc ip_no o
        → Addressed argc ip_no sem_init opened dev c calls (elim o [
          | none ↦ quit
          | some rsv ↦
              if is_neg sem_init
              then no_semaphore
              else served rsv (create_cmd_status_trans_server rsv opened dev c calls)
        ])
    go none r = r
    go (some rsv) r = sem (is_neg sem_init) refl
      where
        sem :
            (b : Bool)
            → is_neg sem_init ≡ b
            → Addressed argc ip_no sem_init opened dev c calls (
                if b
                then no_semaphore
                else served rsv (create_cmd_status_trans_server rsv opened dev c calls))
        sem true e = e
        sem false e = (
          r.0,
          r.1,
          r.2,
          r.3,
          address-same rsv r.3,
          create_cmd_status_trans_server-Guarded rsv opened dev c calls,
        )
