-- ===== src/Cmd/Net/Frames.antt =====
-- `read_net_cmd_thread` passes on what the client sends, frame by frame.
use itrace.Prelude.{
  ℕ, ◌+◌, ◌≤◌, ◌<◌, ◌≡◌, ap, ◌∙◌, List, [], ◌∷◌, ◌++◌, some, false, ◌==◌, if◌then◌else◌, get_or,
  take, drop, length, replicate, ℤ, pos, is_neg, arith, length-append, take-append_left,
  drop-append_left, append_assoc, append-nil,
}
use itrace.Posix.Reliable.{Reliable, serves}
use itrace.General.{SystemStatus, running, Received, readn}
use itrace.General.Readn.{readn-IsFull}
use itrace.Cmd.Device.Laws.{writen_to_cmd_status_dev-IsSent}
use itrace.Cmd.Net.{
  CmdThread, store, Round, again, header_lost, pass_frame, read_entity, read_frame, left,
  read_net_cmd_thread,
}
use itrace.Cmd.Net.Safety.{is_reset-false}

-- A command on the wire: its length in one byte, and its bytes.
abbrev pub frame : List ℕ → List ℕ
frame cmd = length cmd ∷ cmd

unfoldable pub wire : List (List ℕ) → List ℕ
wire [] = []
wire (cmd ∷ cmds) = frame cmd ++ wire cmds

-- What the device is to get: every frame but the empty ones.
unfoldable pub delivered : List (List ℕ) → List ℕ
delivered [] = []
delivered (cmd ∷ cmds) = (if length cmd == 0 then [] else frame cmd) ++ delivered cmds

-- Every command fits the length byte.
abbrev FitByte : List (List ℕ) → Type 0
FitByte [] = Unit
FitByte (cmd ∷ cmds) = (length cmd ≤ 255) × FitByte cmds

-- Both descriptors have a kernel that makes progress, with enough transfers to come for what is
-- still to be read.
pub record IsLive (t : CmdThread) : Type 0 where
  pub socket_reliable : Reliable t.socket.answers
  pub socket_serves : length t.socket.pending < serves t.socket.answers
  pub dev_reliable : Reliable t.dev.answers
  pub dev_serves : length t.socket.pending ≤ serves t.dev.answers

-- One round has passed `out` on, and `rest` is still to be read.
record IsRound (out rest : List ℕ) (before : List ℕ) (r : Round × CmdThread) : Type 0 where
  round : r.0 ≡ again
  accepted : r.1.dev.accepted ≡ before ++ out
  pending : r.1.socket.pending ≡ rest
  live : IsLive r.1

pass_frame-IsRound :
    (fd : ℤ) (t : CmdThread) (cmd rest : List ℕ)
    → is_neg fd ≡ false
    → length cmd ≤ 255
    → t.cmd_cache ≡ frame cmd ++ rest
    → Reliable t.socket.answers
    → length t.socket.pending < serves t.socket.answers
    → Reliable t.dev.answers
    → length t.socket.pending + length cmd + 1 ≤ serves t.dev.answers
    → IsRound (frame cmd) t.socket.pending t.dev.accepted (pass_frame fd t)
unfolding pass_frame
pass_frame-IsRound fd t cmd rest v le e sr sv dr dv = ground (
  arith,
  is_reset-false t.cmd_cache,
  writen_to_cmd_status_dev-IsSent fd t.dev t.cmd_cache (get_or t.cmd_cache 0 0 + 1),
  take-frame,
)
  where
    whole : length cmd + 1 ≡ length (frame cmd)
    whole = omega arith

    take-frame : take (length cmd + 1) (frame cmd ++ rest) ≡ frame cmd
    take-frame = ap (λ k. take k (frame cmd ++ rest)) whole ∙ take-append_left (frame cmd) rest

read_entity-IsRound :
    (fd : ℤ) (t : CmdThread) (cmd rest tail : List ℕ)
    → is_neg fd ≡ false
    → length cmd ≤ 255
    → t.cmd_cache ≡ length cmd ∷ tail
    → t.socket.pending ≡ cmd ++ rest
    → Reliable t.socket.answers
    → length t.socket.pending < serves t.socket.answers
    → Reliable t.dev.answers
    → length t.socket.pending + 1 ≤ serves t.dev.answers
    → IsRound (frame cmd) rest t.dev.accepted (read_entity fd t)
unfolding read_entity
read_entity-IsRound fd t cmd rest tail v le e ep sr sv dr dv =
    let n = length cmd in
    let r = readn t.socket n in
    let full = readn-IsFull t.socket n (omega arith) sr sv in
    let t' : CmdThread = record t { socket = r.left; cmd_cache = store 1 r.stored t.cmd_cache } in
    ground (
      arith,
      full,
      length-append cmd rest,
      take-append_left cmd rest,
      drop-append_left cmd rest,
      pass_frame-IsRound fd t' cmd (drop (1 + length cmd) (n ∷ tail)) v le,
    )

record IsHeader (n : ℕ) (rest : List ℕ) (r : Received) : Type 0 where
  ret : r.ret ≡ some (pos 1)
  stored : r.stored ≡ n ∷ []
  pending : r.left.pending ≡ rest
  reliable : Reliable r.left.answers
  served : length rest < serves r.left.answers

read-IsHeader :
    (t : CmdThread) (n : ℕ) (rest : List ℕ)
    → t.socket.pending ≡ n ∷ rest
    → IsLive t
    → IsHeader n rest (readn t.socket 1)
read-IsHeader t n rest e live =
    ground (arith, readn-IsFull t.socket 1 (omega arith) live.socket_reliable live.socket_serves)

read_frame-IsRound :
    (fd : ℤ) (t : CmdThread) (cmd rest : List ℕ)
    → is_neg fd ≡ false
    → length cmd ≤ 255
    → t.socket.pending ≡ frame cmd ++ rest
    → IsLive t
    → IsRound (if length cmd == 0 then [] else frame cmd) rest t.dev.accepted (read_frame fd t)
unfolding read_frame
read_frame-IsRound fd t [] rest v le ep live =
    ground (arith, read-IsHeader t 0 rest ep live, append-nil t.dev.accepted)
read_frame-IsRound fd t (x ∷ xs) rest v le ep live =
    let cmd : List ℕ = x ∷ xs in
    let r = readn t.socket 1 in
    let head = read-IsHeader t (length cmd) (cmd ++ rest) ep live in
    let t' : CmdThread = record t { socket = r.left; cmd_cache = store 0 r.stored t.cmd_cache } in
    ground (
      arith,
      head,
      length-append cmd rest,
      read_entity-IsRound fd t' cmd rest (drop 1 t.cmd_cache) v le,
    )

-- The client has sent all its commands and closed: the next round finds no header.
read_frame-end :
    (fd : ℤ) (t : CmdThread)
    → t.socket.pending ≡ []
    → IsLive t
    → ((read_frame fd t).0 ≡ header_lost) × ((read_frame fd t).1.dev ≡ t.dev)
unfolding read_frame
read_frame-end fd t e live =
    ground (arith, readn-IsFull t.socket 1 (omega arith) live.socket_reliable live.socket_serves)

-- A client sends commands of at most 255 bytes, each behind its length, and closes; the kernel
-- makes progress on both descriptors, the device's is valid, and the system is not stopped.
-- However the stream is cut, the device gets exactly the frames of the non-empty commands, in
-- order, and the thread ends where the stream does.
pub read_net_cmd_thread-delivers :
    (cmds : List (List ℕ)) (more : List SystemStatus) (fd : ℤ) (t : CmdThread)
    → is_neg fd ≡ false
    → FitByte cmds
    → t.socket.pending ≡ wire cmds
    → IsLive t
    → let r = read_net_cmd_thread (replicate (length cmds) running ++ running ∷ more) fd t in
      (r.0 ≡ left header_lost) × (r.1.dev.accepted ≡ t.dev.accepted ++ delivered cmds)
unfolding read_net_cmd_thread wire delivered
read_net_cmd_thread-delivers [] more fd t v fit e live =
    ground (arith, read_frame-end fd t e live, append-nil t.dev.accepted)
read_net_cmd_thread-delivers (cmd ∷ cmds) more fd t v fit e live =
    let out = if length cmd == 0 then [] else frame cmd in
    ground (
      arith,
      read_frame-IsRound fd t cmd (wire cmds) v fit.0 e live,
      read_net_cmd_thread-delivers cmds more fd (read_frame fd t).1 v fit.1,
      append_assoc t.dev.accepted out (delivered cmds),
    )
