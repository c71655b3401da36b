-- ===== src/Acq/Threads/Invariant.antt =====
-- The indices of the buffers are tokens: each is in one place only, and the bytes under way stand
-- in the order in which they were acquired.
use itrace.Prelude.{
  ℕ, ◌+◌, ◌≡◌, refl, ◌==◌, ltb, if◌then◌else◌, Bool, some, List, [], ◌∷◌, ◌++◌, append_assoc,
  append-nil, take-append-drop, take_of_le, length, count, count-append, take, drop, pos, negsuc,
  arith,
}
use itrace.Acq.Threads.{
  Buffer, payload, ReaderPc, SenderPc, System, update, Work, Fault, Step, init, Reach, read_on,
  read_stop, read_take, read_fill, read_pass, send_on, send_stop, send_take, send_data, send_skip,
  send_pass, read_take_fails, read_fill_fails, read_pass_fails, send_take_fails, send_data_fails,
  send_pass_fails, work, fault, sigint, start, next,
}

abbrev one_if : Bool → ℕ
one_if b = if b then 1 else 0

-- How often a thread has the index `i` in hand.
abbrev reader_holds : ReaderPc → ℕ → ℕ
reader_holds (ReaderPc.got j) i = one_if (j == i)
reader_holds (ReaderPc.filled j) i = one_if (j == i)
reader_holds (ReaderPc.gone (some j) lost) i = one_if (j == i)
reader_holds _ i = 0

abbrev sender_holds : SenderPc → ℕ → ℕ
sender_holds (SenderPc.got j) i = one_if (j == i)
sender_holds (SenderPc.done j) i = one_if (j == i)
sender_holds (SenderPc.gone (some j) lost) i = one_if (j == i)
sender_holds _ i = 0

-- In how many places the index `i` is.
abbrev places : System → ℕ → ℕ
places s i =
    count i s.dma_pipe + reader_holds s.reader i + count i s.socket_pipe + sender_holds s.sender i

-- The bytes under way: with the sender, in the pipe of full buffers, with the reader.
abbrev pub sender_bytes : (ℕ → Buffer) → SenderPc → List ℕ
sender_bytes buffer (SenderPc.got i) = payload (buffer i)
sender_bytes buffer (SenderPc.gone kept lost) = lost
sender_bytes buffer _ = []

abbrev pub pipe_bytes : (ℕ → Buffer) → List ℕ → List ℕ
pipe_bytes buffer [] = []
pipe_bytes buffer (i ∷ pipe) = payload (buffer i) ++ pipe_bytes buffer pipe

abbrev pub reader_bytes : (ℕ → Buffer) → ReaderPc → List ℕ
reader_bytes buffer (ReaderPc.filled i) = payload (buffer i)
reader_bytes buffer (ReaderPc.gone kept lost) = lost
reader_bytes buffer _ = []

abbrev Flow : System → Type 0
Flow s =
    s.sent
      ++ (sender_bytes s.buffer s.sender
          ++ (pipe_bytes s.buffer s.socket_pipe ++ reader_bytes s.buffer s.reader))
    ≡ s.acquired

-- A sender that has left its loop: the pipe's bytes then come after those that it lost.
pub record Inv (s : System) : Type 0 where
  pub tokens : (i : ℕ) → places s i ≡ one_if (ltb i 2)
  pub flow : Flow s

Work-tokens :
    {s t : System}
    → Work s t
    → ((i : ℕ) → places s i ≡ one_if (ltb i 2))
    → (i : ℕ) → places t i ≡ one_if (ltb i 2)
Work-tokens (read_on e r) inv i = ground (arith, inv i)
Work-tokens (read_stop e r) inv i = ground (arith, inv i)
Work-tokens (read_take e q) inv i = ground (arith, inv i)
Work-tokens (read_fill bs e le) inv i = ground (arith, inv i)
Work-tokens {s} (read_pass {i = j} e) inv i =
    ground (arith, inv i, count-append i s.socket_pipe (j ∷ []))
Work-tokens (send_on e r) inv i = ground (arith, inv i)
Work-tokens (send_stop e r) inv i = ground (arith, inv i)
Work-tokens (send_take e q) inv i = ground (arith, inv i)
Work-tokens (send_data e p) inv i = ground (arith, inv i)
Work-tokens (send_skip e p) inv i = ground (arith, inv i)
Work-tokens {s} (send_pass {i = j} e) inv i =
    ground (arith, inv i, count-append i s.dma_pipe (j ∷ []))

Fault-tokens :
    {s t : System}
    → Fault s t
    → ((i : ℕ) → places s i ≡ one_if (ltb i 2))
    → (i : ℕ) → places t i ≡ one_if (ltb i 2)
Fault-tokens (read_take_fails e) inv i = ground (arith, inv i)
Fault-tokens (read_fill_fails e) inv i = ground (arith, inv i)
Fault-tokens (read_pass_fails e) inv i = ground (arith, inv i)
Fault-tokens (send_take_fails e) inv i = ground (arith, inv i)
Fault-tokens (send_data_fails k e p le) inv i = ground (arith, inv i)
Fault-tokens (send_pass_fails e) inv i = ground (arith, inv i)

pipe_bytes-update :
    (buffer : ℕ → Buffer) (i : ℕ) (b : Buffer) (pipe : List ℕ)
    → count i pipe ≡ 0
    → pipe_bytes (update buffer i b) pipe ≡ pipe_bytes buffer pipe
pipe_bytes-update buffer i b [] h = refl
pipe_bytes-update buffer i b (j ∷ pipe) h = ground (arith, pipe_bytes-update buffer i b pipe)

pipe_bytes-snoc :
    (buffer : ℕ → Buffer) (pipe : List ℕ) (i : ℕ)
    → pipe_bytes buffer (pipe ++ i ∷ []) ≡ pipe_bytes buffer pipe ++ payload (buffer i)
pipe_bytes-snoc buffer [] i = append-nil (payload (buffer i))
pipe_bytes-snoc buffer (j ∷ pipe) i = ground (
  arith,
  pipe_bytes-snoc buffer pipe i,
  append_assoc (payload (buffer j)) (pipe_bytes buffer pipe) (payload (buffer i)),
)

-- The buffer that the reader fills is nowhere else.
fill-alone :
    {s : System} {i : ℕ}
    → Inv s
    → s.reader ≡ ReaderPc.got i
    → (count i s.socket_pipe ≡ 0) × (sender_holds s.sender i ≡ 0)
fill-alone {s} {i} inv e = ground (arith, inv.tokens i)

fill-sender_bytes :
    (buffer : ℕ → Buffer) (i : ℕ) (b : Buffer) (pc : SenderPc)
    → sender_holds pc i ≡ 0
    → sender_bytes (update buffer i b) pc ≡ sender_bytes buffer pc
fill-sender_bytes buffer i b SenderPc.testing h = refl
fill-sender_bytes buffer i b SenderPc.waiting h = refl
fill-sender_bytes buffer i b (SenderPc.got j) h = ground arith
fill-sender_bytes buffer i b (SenderPc.done j) h = refl
fill-sender_bytes buffer i b (SenderPc.gone kept lost) h = refl

Work-Flow : {s t : System} → Work s t → Inv s → Flow t
Work-Flow (read_on e r) inv = ground (arith, inv.flow)
Work-Flow (read_stop e r) inv = ground (arith, inv.flow)
Work-Flow (read_take e q) inv = ground (arith, inv.flow)
Work-Flow {s} (read_fill {i = i} bs e le) inv =
    let b : Buffer = record { length = pos (length bs); bytes = bs } in
    ground (
      arith,
      inv.flow,
      fill-alone inv e,
      pipe_bytes-update s.buffer i b s.socket_pipe,
      fill-sender_bytes s.buffer i b s.sender,
      take_of_le (length bs) bs,
      append-nil (pipe_bytes s.buffer s.socket_pipe),
      append_assoc (sender_bytes s.buffer s.sender) (pipe_bytes s.buffer s.socket_pipe) bs,
      append_assoc s.sent (sender_bytes s.buffer s.sender ++ pipe_bytes s.buffer s.socket_pipe) bs,
    )
Work-Flow {s} (read_pass {i = i} e) inv = ground (
  arith,
  inv.flow,
  pipe_bytes-snoc s.buffer s.socket_pipe i,
  append-nil (pipe_bytes s.buffer s.socket_pipe ++ payload (s.buffer i)),
)
Work-Flow (send_on e r) inv = ground (arith, inv.flow)
Work-Flow (send_stop e r) inv = ground (arith, inv.flow)
Work-Flow {s} (send_take {i = i} {rest = p} e q) inv = ground (
  arith,
  inv.flow,
  append_assoc (payload (s.buffer i)) (pipe_bytes s.buffer p) (reader_bytes s.buffer s.reader),
)
Work-Flow {s} (send_data {i = i} {n = n} e p) inv = ground (
  arith,
  inv.flow,
  append_assoc s.sent (payload (s.buffer i))
      (pipe_bytes s.buffer s.socket_pipe ++ reader_bytes s.buffer s.reader),
)
Work-Flow (send_skip e p) inv = ground (arith, inv.flow)
Work-Flow (send_pass e) inv = ground (arith, inv.flow)

Fault-Flow : {s t : System} → Fault s t → Inv s → Flow t
Fault-Flow (read_take_fails e) inv = ground (arith, inv.flow)
Fault-Flow {s} (read_fill_fails {i = i} e) inv =
    let b : Buffer = record { length = negsuc 0; bytes = (s.buffer i).bytes } in
    ground (
      arith,
      inv.flow,
      fill-alone inv e,
      pipe_bytes-update s.buffer i b s.socket_pipe,
      fill-sender_bytes s.buffer i b s.sender,
    )
Fault-Flow (read_pass_fails e) inv = ground (arith, inv.flow)
Fault-Flow (send_take_fails e) inv = ground (arith, inv.flow)
Fault-Flow {s} (send_data_fails {i = i} k e p le) inv =
    let all = payload (s.buffer i) in
    let rest = pipe_bytes s.buffer s.socket_pipe ++ reader_bytes s.buffer s.reader in
    ground (
      arith,
      inv.flow,
      take-append-drop k all,
      append_assoc (take k all) (drop k all) rest,
      append_assoc s.sent (take k all) (drop k all ++ rest),
    )
Fault-Flow (send_pass_fails e) inv = ground (arith, inv.flow)

Step-Inv : {s t : System} → Step s t → Inv s → Inv t
Step-Inv (work w) inv = record { tokens = Work-tokens w inv.tokens; flow = Work-Flow w inv }
Step-Inv (fault f) inv = record { tokens = Fault-tokens f inv.tokens; flow = Fault-Flow f inv }
Step-Inv sigint inv = record { tokens = inv.tokens; flow = inv.flow }

init-Inv : Inv init
init-Inv = record { tokens = λ i. ground arith; flow = refl }

pub Reach-Inv : {s : System} → Reach s → Inv s
Reach-Inv start = init-Inv
Reach-Inv (next r st) = Step-Inv st (Reach-Inv r)
