-- ===== src/Cmd/Status/Live.antt =====
-- `send_status_data_thread` (cmd_status_trans/server.c) with a kernel that makes progress.
use itrace.Prelude.{
  ℕ, ◌+◌, ◌^◌, ◌≤◌, ◌<◌, ◌≡◌, refl, List, [], ◌∷◌, ◌++◌, true, false, take, drop, length, is_neg,
  arith, append_assoc, append-nil, length-take, length-drop, take_of_le, min, replicate,
}
use itrace.Posix.{Answer, serve, nothing, refuse, eintr, eagain, esrch, other}
use itrace.Posix.Reliable.{Reliable, serves}
use itrace.Posix.Calls.{take-split, read-serve_nil, read-serve_cons, read-refuse}
use itrace.General.{running}
use itrace.General.Writen.{writen-IsSent}
use itrace.Cmd.Status.{
  StatusThread, Round, again, send_status, read_status, looping, status_loop,
  send_status_data_thread,
}

record IsForwarded (bs : List ℕ) (t : StatusThread) (r : Round × StatusThread) : Type 0 where
  round : r.0 ≡ again
  dev : r.1.dev ≡ t.dev
  fd : r.1.socket_fd ≡ t.socket_fd
  accepted : r.1.socket.accepted ≡ t.socket.accepted ++ bs
  reliable : Reliable r.1.socket.answers
  served : serves t.socket.answers ≤ serves r.1.socket.answers + length bs

send_status-IsForwarded :
    (bs : List ℕ) (t : StatusThread)
    → length bs < 2 ^ 31
    → is_neg t.socket_fd ≡ false
    → Reliable t.socket.answers
    → length bs ≤ serves t.socket.answers
    → IsForwarded bs t (send_status bs t)
unfolding send_status
send_status-IsForwarded bs t h v rel sv =
    ground (
      arith,
      writen-IsSent t.socket_fd t.socket bs (length bs) v h rel sv,
      take_of_le (length bs) bs,
    )

status_loop-sends :
    (answers : List Answer) (pending : List ℕ) (t : StatusThread)
    → t.dev ≡ record { pending = pending; answers = answers }
    → Reliable answers
    → length pending ≤ serves answers
    → is_neg t.socket_fd ≡ false
    → Reliable t.socket.answers
    → length pending ≤ serves t.socket.answers
    → let r = status_loop (replicate (length answers) running) t in
      (r.0 ≡ looping)
      × (r.1.socket.accepted ≡ t.socket.accepted ++ pending)
      × (r.1.dev.pending ≡ [])
unfolding status_loop read_status
status_loop-sends [] [] t e rel sv v wr ws = ground (arith, append-nil t.socket.accepted)
status_loop-sends [] (x ∷ xs) t e rel sv v wr ws = absurd (omega arith)
status_loop-sends (serve k ∷ l) [] t e rel sv v wr ws = ground (
  arith,
  read-serve_nil k 0x1000,
  status_loop-sends l [] (record t { dev = record { pending = []; answers = l } }) refl rel
      (omega arith) v wr,
)
status_loop-sends (serve k ∷ l) (x ∷ xs) t e rel sv v wr ws =
    let bs = take (min k 0xfff) xs in
    let rest = drop (length bs) xs in
    let t' : StatusThread = record t { dev = record { pending = rest; answers = l } } in
    let u = (send_status (x ∷ bs) t').1 in
    let f =
      send_status-IsForwarded (x ∷ bs) t' (omega (arith, length-take (min k 0xfff) xs)) v wr
        (omega (arith, length-take (min k 0xfff) xs)) in
    let split = take-split (min k 0xfff) xs in
    let ih =
      status_loop-sends l rest u f.dev rel (omega (arith, length-drop (length bs) xs))
        (ground (arith, f.fd)) f.reliable
        (omega (arith, f.served, length-take (min k 0xfff) xs, length-drop (length bs) xs)) in
    ground (
      arith,
      read-serve_cons k 0xfff x xs,
      f.round,
      f.accepted,
      ih,
      split,
      append_assoc t.socket.accepted (x ∷ bs) rest,
    )
status_loop-sends (nothing ∷ l) pending t e rel sv v wr ws = absurd rel
status_loop-sends (refuse eintr ∷ l) pending t e rel sv v wr ws = ground (
  arith,
  read-refuse eintr 0x1000 pending,
  status_loop-sends l pending (record t { dev = record { pending = pending; answers = l } }) refl
      rel sv v wr,
)
status_loop-sends (refuse eagain ∷ l) pending t e rel sv v wr ws = ground (
  arith,
  read-refuse eagain 0x1000 pending,
  status_loop-sends l pending (record t { dev = record { pending = pending; answers = l } }) refl
      rel sv v wr,
)
status_loop-sends (refuse esrch ∷ l) pending t e rel sv v wr ws = absurd rel
status_loop-sends (refuse other ∷ l) pending t e rel sv v wr ws = absurd rel

-- With a kernel that makes progress on both descriptors, a valid one of the socket, and a system
-- that is not stopped, `send_status_data_thread` sends all that the device delivers, in order, and
-- does not leave its loop.
pub send_status_data_thread-sends :
    (t : StatusThread)
    → Reliable t.dev.answers
    → length t.dev.pending ≤ serves t.dev.answers
    → is_neg t.socket_fd ≡ false
    → Reliable t.socket.answers
    → length t.dev.pending ≤ serves t.socket.answers
    → let r = send_status_data_thread true (replicate (length t.dev.answers) running) t in
      (r.0 ≡ looping)
      × (r.1.socket.accepted ≡ t.socket.accepted ++ t.dev.pending)
      × (r.1.dev.pending ≡ [])
unfolding send_status_data_thread
send_status_data_thread-sends t = status_loop-sends t.dev.answers t.dev.pending t refl
