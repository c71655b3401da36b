-- ===== src/Acq/Threads/Runs.antt =====
-- Runs of the two threads of acq_data_trans/server.c.
use itrace.Acq.Threads.{System, Step}

-- Runs of the relation, from one state to another.
pub data Steps (s : System) : System → Type 0 where
  here : Steps s s
  then_step : {t u : System} → Steps s t → Step t u → Steps s u

pub prepend : {s t u : System} → Step s t → Steps t u → Steps s u
prepend st here = then_step here st
prepend st (then_step r last) = then_step (prepend st r) last

pub join : {s t u : System} → Steps s t → Steps t u → Steps s u
join r here = r
join r (then_step q st) = then_step (join r q) st
