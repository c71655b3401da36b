-- ===== src/Server/Tests.antt =====
-- The two servers (cmd_status_trans/server.c, acq_data_trans/server.c) at concrete inputs.
use itrace.Prelude.{[], ◌∷◌, none, true, false, pos}
use itrace.Posix.{Sink, serve, refuse, other}
use itrace.General.{running}
use itrace.Lifecycle.{in_parent, in_child, refused, client}
use itrace.Cmd
use itrace.Acq
use itrace.Server.{Calls, create_cmd_status_trans_server}
use itrace.Server.Main.{cmd_status_main, Addressed, cmd_status_main-Addressed}
use itrace.Server.Errors.{Guarded, create_cmd_status_trans_server-Guarded}

-- The second `bind` succeeds; of the second client's two processes this is the child.
abbrev calls : Calls
calls = record {
  socket = pos 3;
  binds = false ∷ true ∷ [];
  listens = true;
  turns = refused running true ∷ client [] (in_parent 99) true ∷ client [] in_child true ∷ [];
  conn_fd = pos 4;
}

abbrev acq_calls : Acq.Setup.Calls
acq_calls = record {
  opened = pos 5;
  area = none;
  allocated_0 = true;
  allocated_1 = true;
  dma_index_pipe = none;
  socket_index_pipe = none;
  sinks = λ fd. record { accepted = []; asked = []; answers = [] };
  reader_created = true;
  sender_created = true;
  clear_created = true;
}

abbrev cmd_calls : Cmd.Setup.Calls
cmd_calls = record {
  opened = pos 5;
  reader_created = true;
  sender_created = true;
  clear_created = true;
}

abbrev device : Sink
device = record { accepted = []; asked = []; answers = serve 4 ∷ refuse other ∷ [] }

create_cmd_status_trans_server-Guarded_example :
    Guarded 120
      (pos 5)
      device
      calls
      cmd_calls
      (create_cmd_status_trans_server 120 (pos 5) device calls cmd_calls)
create_cmd_status_trans_server-Guarded_example =
    create_cmd_status_trans_server-Guarded 120 (pos 5) device calls cmd_calls

cmd_status_main-Addressed_example :
    Addressed 2
      (pos 120)
      (pos 0)
      (pos 5)
      device
      calls
      cmd_calls
      (cmd_status_main 2 (pos 120) (pos 0) (pos 5) device calls cmd_calls)
cmd_status_main-Addressed_example =
    cmd_status_main-Addressed 2 (pos 120) (pos 0) (pos 5) device calls cmd_calls
