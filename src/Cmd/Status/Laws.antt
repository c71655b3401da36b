-- ===== src/Cmd/Status/Laws.antt =====
-- What `send_status_data_thread` (cmd_status_trans/server.c) sends, and what a lost client changes.
use itrace.Prelude.{
  ℕ, ◌+◌, ◌^◌, ◌≤◌, ◌<◌, ◌≡◌, ◌⊎◌, inl, inr, Bool-cases, take-append_of_le, refl, List, [], ◌∷◌,
  ◌++◌, Option, none, some, Bool, true, false, take, drop, length, ℤ, is_neg, arith, append_assoc,
  append-nil, take-add, drop-drop,
}
use itrace.Posix.{Answer, read}
use itrace.Posix.Calls.{ended, some_bytes, error, read-cases, read-prefix}
use itrace.General.{SystemStatus, running, stop}
use itrace.General.Writen.{writen-IsPassed, writen-negative}
use itrace.Cmd.Status.{
  StatusThread, Round, again, device_lost, waiting, blocked, send_status, read_status, Outcome,
  left, status_loop, send_status_data_thread,
}

abbrev unblocked : Round → Bool
unblocked blocked = false
unblocked _ = true

-- Between `t` and `u`, `sent` bytes have been given to the socket, and `read_len` bytes read from
-- the device.
pub record Sends (settled : Bool) (t u : StatusThread) : Type 0 where
  pub sent : ℕ
  pub read_len : ℕ
  pub socket : u.socket.accepted ≡ t.socket.accepted ++ take sent t.dev.pending
  pub dev : u.dev.pending ≡ drop read_len t.dev.pending
  pub in_order : sent ≤ read_len
  -- All that was read was sent, unless the descriptor is no longer valid or a `write` blocks.
  pub whole : (settled ≡ false) ⊎ ((is_neg u.socket_fd ≡ true) ⊎ (sent ≡ read_len))
  -- Nothing is sent to a descriptor that is not valid, and it stays so.
  pub closed : (is_neg t.socket_fd ≡ false) ⊎ ((sent ≡ 0) × (is_neg u.socket_fd ≡ true))

Option-cases : (o : Option ℤ) → (o ≡ none) ⊎ ((a : ℤ) × (o ≡ some a))
Option-cases none = inl refl
Option-cases (some a) = inr (a, refl)

-- The thread has just read `bs`, with the stream at `bs ++ rest`.
record SendsRead (bs : List ℕ) (t : StatusThread) (r : Round × StatusThread) : Type 0 where
  sent : ℕ
  socket : r.1.socket.accepted ≡ t.socket.accepted ++ take sent bs
  dev : r.1.dev ≡ t.dev
  fits : sent ≤ length bs
  whole : (unblocked r.0 ≡ false) ⊎ ((is_neg r.1.socket_fd ≡ true) ⊎ (sent ≡ length bs))
  closed : (is_neg t.socket_fd ≡ false) ⊎ ((sent ≡ 0) × (is_neg r.1.socket_fd ≡ true))

send_status-SendsRead :
    (b : ℕ) (bs : List ℕ) (t : StatusThread)
    → length (b ∷ bs) < 2 ^ 31
    → SendsRead (b ∷ bs) t (send_status (b ∷ bs) t)
unfolding send_status
send_status-SendsRead b bs t h = elim (Bool-cases (is_neg t.socket_fd)) [
  | inl gone ↦
      let e = writen-negative t.socket_fd t.socket (b ∷ bs) (length (b ∷ bs)) gone in
      record {
        sent = 0;
        socket = ground (arith, e, append-nil t.socket.accepted);
        dev = ground (arith, e);
        fits = omega arith;
        whole = ground (arith, e);
        closed = ground (arith, e);
      }
  | inr valid ↦
      let p = writen-IsPassed t.socket_fd t.socket (b ∷ bs) (length (b ∷ bs)) valid h in
      record {
        sent = p.taken;
        socket = ground (arith, p.moved);
        dev = ground arith;
        fits = p.fits;
        whole = ground (arith, p.outcome);
        closed = ground arith;
      }
]

kept-Sends :
    (settled : Bool) (t u : StatusThread)
    → u.socket ≡ t.socket
    → u.socket_fd ≡ t.socket_fd
    → u.dev.pending ≡ t.dev.pending
    → Sends settled t u
kept-Sends settled t u es ef ed = record {
  sent = 0;
  read_len = 0;
  socket = ground (arith, append-nil t.socket.accepted);
  dev = ed;
  in_order = omega arith;
  whole = inr (inr refl);
  closed = ground arith;
}

read_status-Sends :
    (t : StatusThread) (l : List Answer)
    → t.dev.answers ≡ l
    → Sends (unblocked (read_status t).0) t (read_status t).1
unfolding read_status
read_status-Sends t [] e = kept-Sends _ t _ (ground arith) (ground arith) (ground arith)
read_status-Sends t (a ∷ rest) e = elim (read-cases (read a 0x1000 t.dev.pending)) [
  | ended q ↦ kept-Sends _ t _ (ground arith) (ground arith) (ground arith)
  | some_bytes b bs q ↦
      let n = length (b ∷ bs) in
      let pre = read-prefix a 0x1000 t.dev.pending (b ∷ bs) q in
      let t' : StatusThread = record t {
        dev = record { pending = drop n t.dev.pending; answers = rest };
      } in
      let m = send_status-SendsRead b bs t' (omega (arith, pre.1)) in
      record {
        sent = m.sent;
        read_len = n;
        socket = ground (
          arith,
          m.socket,
          pre.0,
          take-append_of_le m.sent (b ∷ bs) (drop n t.dev.pending),
          m.fits,
        );
        dev = ground (arith, m.dev);
        in_order = m.fits;
        whole = ground (arith, m.whole);
        closed = ground (arith, m.closed);
      }
  | error x q ↦ kept-Sends _ t _ (ground arith) (ground arith) (ground arith)
]

Sends-trans :
    (settled : Bool) (t u v : StatusThread) → Sends true t u → Sends settled u v → Sends settled t v
Sends-trans settled t u v p q = record {
  sent = p.sent + q.sent;
  read_len = p.read_len + q.read_len;
  socket = elim (Bool-cases (is_neg u.socket_fd)) [
    | inl gone ↦ ground (
      arith,
      p.socket,
      q.socket,
      q.closed,
      append-nil (t.socket.accepted ++ take p.sent t.dev.pending),
    )
    | inr valid ↦ ground (
      arith,
      p.socket,
      q.socket,
      p.whole,
      p.dev,
      append_assoc t.socket.accepted (take p.sent t.dev.pending)
          (take q.sent (drop p.sent t.dev.pending)),
      take-add p.sent q.sent t.dev.pending,
    )
  ];
  dev = ground (arith, p.dev, q.dev, drop-drop p.read_len q.read_len t.dev.pending);
  in_order = omega (arith, p.in_order, q.in_order);
  whole = ground (arith, p.whole, q.whole, q.closed);
  closed = ground (arith, p.closed, q.closed);
}

abbrev pub settled : Outcome → Bool
settled (left r) = unblocked r
settled _ = true

status_loop-Sends :
    (readings : List SystemStatus) (t : StatusThread)
    → Sends (settled (status_loop readings t).0) t (status_loop readings t).1
unfolding status_loop
status_loop-Sends [] t = kept-Sends true t t refl refl refl
status_loop-Sends (stop ∷ r) t = kept-Sends true t t refl refl refl
status_loop-Sends (running ∷ r) t =
    after (read_status t).0 (read_status t).1 (read_status-Sends t t.dev.answers refl)
      (status_loop-Sends r (read_status t).1)
  where
    after :
        (x : Round) (u : StatusThread)
        → Sends (unblocked x) t u
        → Sends (settled (status_loop r u).0) u (status_loop r u).1
        → let res : Outcome × StatusThread = elim x [ again ↦ status_loop r u | y ↦ (left y, u) ] in
          Sends (settled res.0) t res.1
    after again u p q = Sends-trans (settled (status_loop r u).0) t u (status_loop r u).1 p q
    after device_lost u p q = p
    after waiting u p q = p
    after blocked u p q = p

-- For any answers of the kernel on both descriptors, `send_status_data_thread` sends a prefix of
-- the device's stream, in order, and never more than it has read. Wherever it comes to, also where
-- it waits in a `read` of the device, if the socket's descriptor is still valid then and it is not in a
-- `write` that blocks, it has sent all that it has read; if the descriptor was invalid before, it sends
-- nothing.
pub send_status_data_thread-Sends :
    (allocated : Bool) (readings : List SystemStatus) (t : StatusThread)
    → Sends
        (settled (send_status_data_thread allocated readings t).0)
        t
        (send_status_data_thread allocated readings t).1
unfolding send_status_data_thread
send_status_data_thread-Sends true readings t = status_loop-Sends readings t
send_status_data_thread-Sends false readings t = kept-Sends true t t refl refl refl
