-- ===== src/Cmd/Status/Tests.antt =====
-- `send_status_data_thread` (cmd_status_trans/server.c) at concrete inputs.
use itrace.Prelude.{◌≡◌, refl, [], ◌∷◌, ◌++◌, replicate, pos, true, arith}
use itrace.Posix.{serve, refuse, eagain, other}
use itrace.General.{running}
use itrace.Cmd.Status.{StatusThread, looping, send_status_data_thread}
use itrace.Cmd.Status.Laws.{Sends, settled, send_status_data_thread-Sends}
use itrace.Cmd.Status.Live.{send_status_data_thread-sends}

abbrev good : StatusThread
good = record {
  dev = record {
    pending = 1 ∷ 2 ∷ 3 ∷ [];
    answers = serve 1 ∷ refuse eagain ∷ serve 1 ∷ serve 1 ∷ [];
  };
  socket_fd = pos 6;
  socket = record { accepted = []; asked = []; answers = serve 0 ∷ serve 0 ∷ serve 0 ∷ [] };
}

-- The client is lost in the middle of a transfer.
abbrev lost : StatusThread
lost = record good {
  socket = record { accepted = []; asked = []; answers = serve 0 ∷ refuse other ∷ [] };
}

send_status_data_thread-sends_example :
    let r = send_status_data_thread true (replicate 4 running) good in
    (r.0 ≡ looping) × (r.1.socket.accepted ≡ [] ++ 1 ∷ 2 ∷ 3 ∷ []) × (r.1.dev.pending ≡ [])
send_status_data_thread-sends_example =
    send_status_data_thread-sends good tt (omega arith) refl tt (omega arith)

send_status_data_thread-Sends_example :
    Sends
      (settled (send_status_data_thread true (replicate 3 running) lost).0)
      lost
      (send_status_data_thread true (replicate 3 running) lost).1
send_status_data_thread-Sends_example =
    send_status_data_thread-Sends true (replicate 3 running) lost
