-- ===== src/Server/Errors.antt =====
-- When the two servers (cmd_status_trans/server.c, acq_data_trans/server.c) do not come to serve, and what
-- they have done then.
use itrace.Prelude.{
  ℕ, zero, suc, ◌≡◌, ◌≢◌, ◌≤◌, ◌<◌, ◌⊎◌, inl, inr, refl, sym, ap, ◌∙◌, subst, subst, Option, none,
  some, Bool, true, false, ◌&&◌, not, leb, if◌then◌else◌, take, length, ℤ, pos, negsuc, minus_one,
  is_pos, is_neg, arith,
}
use itrace.Posix.{Sink}
use itrace.General.{Sent}
use itrace.Socket.Server.{max_try_bind_times, create_srv_netsock}
use itrace.Socket.Server.Bind.{any_true, Created, create_srv_netsock-Created}
use itrace.Lifecycle.Sources.{ProcSource, cmd_parent_source, acq_parent_source}
use itrace.Lifecycle.{serve, parent_start}
use itrace.Cmd
use itrace.Cmd.Setup.{ip_write_cmd, write_ip, open_cmd_status_device}
use itrace.Cmd.Device.{writen_to_cmd_status_dev}
use itrace.Cmd.Device.Laws.{IsMoved, writen_to_cmd_status_dev-IsMoved}
use itrace.Acq
use itrace.Server.{
  Calls, Listening, no_socket, binding, no_listen, listening, create_listen, Server, not_serving,
  after_serve, create_server, create_acq_data_trans_server, CmdServer, spm, scm,
  create_cmd_status_trans_server,
}

-- One of the first fifteen calls of `bind` succeeds.
abbrev is_bound : Calls → Bool
is_bound c = any_true (take max_try_bind_times c.binds)

-- There is a socket, and it can be bound and listened on.
abbrev can_serve : Calls → Bool
can_serve c = not (is_neg c.socket) && (is_bound c && c.listens)

-- The calls of `bind` that `create_srv_netsock` makes.
abbrev tries_of : Calls → ℕ
tries_of c = (create_srv_netsock c.socket c.binds).tries

-- `socket` fails, and `bind` is not called.
abbrev NoSocket : Calls → Type 0
NoSocket c = (c.socket ≡ minus_one) × (tries_of c ≡ 0)

-- Why the listening socket has come to be what it is.
abbrev Why : Calls → Listening → Type 0
Why c no_socket =
    NoSocket c
    ⊎ (c.socket ≢ minus_one)
      × ((is_bound c ≡ false) × (tries_of c ≡ max_try_bind_times)
          ⊎ (is_bound c ≡ true) × (is_neg c.socket ≡ true))
Why c binding =
    (c.socket ≢ minus_one) × (is_bound c ≡ false) × (length c.binds < max_try_bind_times)
Why c no_listen = (is_neg c.socket ≡ false) × (is_bound c ≡ true) × (c.listens ≡ false)
Why c (listening listen_fd) = (listen_fd ≡ c.socket) × (can_serve c ≡ true)

create_listen-Why : (c : Calls) → Why c (create_listen c)
unfolding create_listen
create_listen-Why c =
    go (create_srv_netsock c.socket c.binds).ret (create_srv_netsock-Created c.socket c.binds)
  where
    go :
        (ret : Option ℤ)
        → Created c.socket c.binds (tries_of c) ret
        → Why c (elim ret [
          | none ↦ binding
          | some listen_fd ↦
              if is_neg listen_fd
              then no_socket
              else if c.listens
              then listening listen_fd
              else no_listen
        ])
    go none (inl b) = ground arith
    go none (inr b) = (b.0, b.1.0, b.1.1)
    go (some ret) (inl b) = ground arith
    go (some (pos n)) (inr b) = ground arith
    go (some (negsuc n)) (inr b) = ground arith

-- The server that `c` calls for.
abbrev expected {ℓ} : {C : Type ℓ} → (ℤ → ℤ → ProcSource) → Calls → C → Server C
expected fill c set_up =
    if can_serve c
    then (let (next, p) = serve fill c.turns (parent_start c.socket) in after_serve set_up next p)
    else not_serving (create_listen c)

create_server-expected {ℓ} :
    {C : Type ℓ} (fill : ℤ → ℤ → ProcSource) (c : Calls) (set_up : C)
    → create_server fill c set_up (create_listen c) ≡ expected fill c set_up
unfolding create_server
create_server-expected {C = C} fill c set_up = go (create_listen c) (create_listen-Why c)
  where
    go :
        (l : Listening)
        → Why c l
        → create_server fill c set_up l ≡ (
            if can_serve c
            then (let (next, p) = serve fill c.turns (parent_start c.socket) in
                after_serve set_up next p)
            else not_serving l)
    go no_socket w = ground arith
    go binding w = ground arith
    go no_listen w = ground arith
    go (listening fd) w =
        ap (λ s. let (next, p) = serve fill c.turns (parent_start s) in after_serve set_up next p)
          w.0
        ∙ sym (
            ap
              (λ (b : Bool).
                if b
                then (let (next, p) = serve fill c.turns (parent_start c.socket) in
                    after_serve set_up next p)
                else not_serving (listening fd))
              w.1)

-- acq_data_trans comes to its loop of clients exactly when there is a socket, one of the first fifteen calls of
-- `bind` succeeds and so does the first `listen`; its parent then has that socket. Otherwise no client is
-- accepted and no child is forked, and what keeps it from serving is the first of the three that fails
-- (without a socket `bind` is not called, and it fails when fifteen calls have been made), or a loop of `bind`
-- on a socket, which has not come to its fifteenth call.
create_acq_data_trans_server-expected :
    (c : Calls) (calls : Acq.Setup.Calls)
    → (create_acq_data_trans_server c calls
        ≡ expected acq_parent_source c (Acq.Setup.set_up_child c.conn_fd calls))
      × Why c (create_listen c)
unfolding create_acq_data_trans_server
create_acq_data_trans_server-expected c calls = (
  create_server-expected acq_parent_source c (Acq.Setup.set_up_child c.conn_fd calls),
  create_listen-Why c,
)

-- The transfer of a SPM, by what `open` gives.
abbrev IsAddress : (rsv : ℕ) → (opened : ℤ) → Sink → Option Sent → Type 0
IsAddress rsv opened dev none = is_pos opened ≡ false
IsAddress rsv opened dev (some sent) =
    (is_pos opened ≡ true) × IsMoved 23 (ip_write_cmd rsv) dev sent

-- What a process of cmd_status_trans may have come to.
abbrev pub Guarded : (rsv : ℕ) → (opened : ℤ) → Sink → Calls → Cmd.Setup.Calls → CmdServer → Type 0
Guarded rsv opened dev c calls (spm sent) = (101 ≤ rsv) × IsAddress rsv opened dev sent
Guarded rsv opened dev c calls (scm server) =
    (rsv < 101)
    × (server ≡ expected cmd_parent_source c (Cmd.Setup.set_up_child c.conn_fd calls))
    × Why c (create_listen c)

abbrev Branched : (rsv : ℕ) → (opened : ℤ) → Sink → Option (Option Sent) → Type 0
Branched rsv opened dev none = rsv < 101
Branched rsv opened dev (some sent) = (101 ≤ rsv) × IsAddress rsv opened dev sent

length-ip_write_cmd : (rsv : ℕ) → length (ip_write_cmd rsv) ≡ 23
unfolding ip_write_cmd
length-ip_write_cmd rsv = refl

address-IsMoved :
    (rsv n : ℕ) (dev : Sink)
    → IsMoved 23
        (ip_write_cmd rsv)
        dev
        (writen_to_cmd_status_dev (pos n) dev (ip_write_cmd rsv) (length (ip_write_cmd rsv)))
address-IsMoved rsv n dev =
    subst
      (λ k.
        IsMoved k (ip_write_cmd rsv) dev
          (writen_to_cmd_status_dev (pos n) dev (ip_write_cmd rsv) (length (ip_write_cmd rsv))))
      (length-ip_write_cmd rsv)
      (writen_to_cmd_status_dev-IsMoved (pos n) dev (ip_write_cmd rsv) (length (ip_write_cmd rsv))
        refl (omega (arith, length-ip_write_cmd rsv)))

write_ip-Branched :
    (rsv : ℕ) (opened : ℤ) (dev : Sink) → Branched rsv opened dev (write_ip rsv opened dev)
unfolding write_ip open_cmd_status_device
write_ip-Branched rsv (pos zero) dev = ground arith
write_ip-Branched rsv (negsuc n) dev = ground arith
write_ip-Branched rsv (pos (suc n)) dev = go (leb 101 rsv) refl
  where
    go :
        (b : Bool)
        → leb 101 rsv ≡ b
        → Branched rsv (pos (suc n)) dev (
            if b
            then some (
                some (
                  writen_to_cmd_status_dev
                    (pos (suc n))
                    dev
                    (ip_write_cmd rsv)
                    (length (ip_write_cmd rsv))))
            else none)
    go true q = (ground arith, (refl, address-IsMoved rsv (suc n) dev))
    go false q = ground arith

-- A process of cmd_status_trans whose number is at least 101 never listens: it only hands its device, if that can
-- be opened, a part of the 23 bytes of its address frame. With a smaller number it comes to its loop of
-- clients exactly when there is a socket, one of the first fifteen calls of `bind` succeeds and so does
-- the first `listen`; otherwise no client is accepted and no child is forked, and what keeps it from
-- serving is the first of the three that fails (without a socket `bind` is not called, and it fails when
-- fifteen calls have been made), or a loop of `bind` on a socket before its fifteenth call.
pub create_cmd_status_trans_server-Guarded :
    (rsv : ℕ) (opened : ℤ) (dev : Sink) (c : Calls) (calls : Cmd.Setup.Calls)
    → Guarded rsv opened dev c calls (create_cmd_status_trans_server rsv opened dev c calls)
unfolding create_cmd_status_trans_server
create_cmd_status_trans_server-Guarded rsv opened dev c calls =
    go (write_ip rsv opened dev) (write_ip-Branched rsv opened dev)
  where
    go :
        (o : Option (Option Sent))
        → Branched rsv opened dev o
        → Guarded rsv opened dev c calls (elim o [
          | some sent ↦ spm sent
          | none ↦ scm (
              create_server cmd_parent_source c
                (Cmd.Setup.set_up_child c.conn_fd calls)
                (create_listen c))
        ])
    go none b = (
      b,
      create_server-expected cmd_parent_source c (Cmd.Setup.set_up_child c.conn_fd calls),
      create_listen-Why c,
    )
    go (some sent) b = b
