-- ===== src/Cmd/Net/Safety.antt =====
-- What `read_net_cmd_thread` never does, for any answers of the kernel.
use itrace.Prelude.{
  ℕ, ◌+◌, ◌^◌, ◌≤◌, ◌<◌, ◌≡◌, refl, ◌∙◌, List, [], ◌∷◌, ◌++◌, some, false, get_or, take, drop,
  length, ℤ, pos, arith, length-append, length-take, length-drop, AllLe, AllLe-append,
}
use itrace.General.{SystemStatus, running, stop, readn}
use itrace.General.Readn.{readn-IsReceipt}
use itrace.Cmd.Net.{
  CmdThread, store, is_reset, pass_frame, read_entity, read_frame, read_net_cmd_thread, cache_size,
}

pub is_reset-false : (cache : List ℕ) → is_reset cache ≡ false
unfolding is_reset
is_reset-false cache = ground arith

pass_frame-ctrl : (fd : ℤ) (t : CmdThread) → (pass_frame fd t).1.ctrl ≡ t.ctrl
unfolding pass_frame
pass_frame-ctrl fd t = ground (arith, is_reset-false t.cmd_cache)

read_entity-ctrl : (fd : ℤ) (t : CmdThread) → (read_entity fd t).1.ctrl ≡ t.ctrl
unfolding read_entity
read_entity-ctrl fd t = grind (arith, pass_frame-ctrl)

read_frame-ctrl : (fd : ℤ) (t : CmdThread) → (read_frame fd t).1.ctrl ≡ t.ctrl
unfolding read_frame
read_frame-ctrl fd t = grind (arith, read_entity-ctrl)

-- Whatever the client sends, `read_net_cmd_thread` never writes to the control register: the
-- system reset frame, too, is passed on to the device as any other frame.
pub read_net_cmd_thread-ctrl :
    (readings : List SystemStatus) (fd : ℤ) (t : CmdThread)
    → (read_net_cmd_thread readings fd t).1.ctrl ≡ t.ctrl
unfolding read_net_cmd_thread
read_net_cmd_thread-ctrl [] fd t = refl
read_net_cmd_thread-ctrl (stop ∷ r) fd t = refl
read_net_cmd_thread-ctrl (running ∷ r) fd t =
    ground (arith, read_frame-ctrl fd t, read_net_cmd_thread-ctrl r fd (read_frame fd t).1)

length-store :
    (at : ℕ) (bs cache : List ℕ)
    → at + length bs ≤ length cache
    → length (store at bs cache) ≡ length cache
length-store at bs cache h = omega (
  arith,
  length-append (take at cache) (bs ++ drop (at + length bs) cache),
  length-append bs (drop (at + length bs) cache),
  length-take at cache,
  length-drop (at + length bs) cache,
)

-- Every byte of the socket's stream and of the cache is a byte, and the cache has its 512 bytes.
record IsSound (t : CmdThread) : Type 0 where
  bytes : AllLe 255 t.socket.pending
  sized : length t.cmd_cache ≡ cache_size

receive-IsSound :
    (t : CmdThread) (at n : ℕ)
    → IsSound t
    → n < 2 ^ 31
    → at + n ≤ cache_size
    → let r = readn t.socket n in
      IsSound (record t { socket = r.left; cmd_cache = store at r.stored t.cmd_cache })
receive-IsSound t at n snd lt room =
    let r = readn t.socket n in
    let c = readn-IsReceipt t.socket n lt in
    record {
      bytes = (AllLe-append 255 r.stored r.left.pending (rw c.conserved snd.bytes)).1;
      sized = length-store at r.stored t.cmd_cache (omega (arith, c.fits, snd.sized)) ∙ snd.sized;
    }

pass_frame-IsSound : (fd : ℤ) (t : CmdThread) → IsSound t → IsSound (pass_frame fd t).1
unfolding pass_frame
pass_frame-IsSound fd t snd = ground arith

read_entity-IsSound :
    (fd : ℤ) (t : CmdThread)
    → get_or t.cmd_cache 0 0 ≤ 255
    → IsSound t
    → IsSound (read_entity fd t).1
unfolding read_entity
read_entity-IsSound fd t le snd =
    let len = get_or t.cmd_cache 0 0 in
    let r = readn t.socket len in
    let t' : CmdThread = record t { socket = r.left; cmd_cache = store 1 r.stored t.cmd_cache } in
    ground (arith, receive-IsSound t 1 len, pass_frame-IsSound fd t')

-- After a read of one byte, the first byte of the cache is that byte.
header-le :
    (t : CmdThread)
    → IsSound t
    → (readn t.socket 1).ret ≡ some (pos 1)
    → get_or (store 0 (readn t.socket 1).stored t.cmd_cache) 0 0 ≤ 255
header-le t snd e =
    let r = readn t.socket 1 in
    let c = readn-IsReceipt t.socket 1 (omega arith) in
    first r.stored (drop (0 + length r.stored) t.cmd_cache) (ground (arith, c.outcome))
      (AllLe-append 255 r.stored r.left.pending (rw c.conserved snd.bytes)).0
  where
    first : (xs ys : List ℕ) → 1 ≡ length xs → AllLe 255 xs → get_or (xs ++ ys) 0 0 ≤ 255
    first [] ys h a = absurd (omega arith)
    first (x ∷ xs) ys h a = a.0

read_frame-IsSound : (fd : ℤ) (t : CmdThread) → IsSound t → IsSound (read_frame fd t).1
unfolding read_frame
read_frame-IsSound fd t snd =
    let r = readn t.socket 1 in
    let t' : CmdThread = record t { socket = r.left; cmd_cache = store 0 r.stored t.cmd_cache } in
    ground (arith, receive-IsSound t 0 1, header-le t snd, read_entity-IsSound fd t')

run-IsSound :
    (readings : List SystemStatus) (fd : ℤ) (t : CmdThread)
    → IsSound t
    → IsSound (read_net_cmd_thread readings fd t).1
unfolding read_net_cmd_thread
run-IsSound [] fd t snd = snd
run-IsSound (stop ∷ r) fd t snd = snd
run-IsSound (running ∷ r) fd t snd =
    ground (arith, read_frame-IsSound fd t snd, run-IsSound r fd (read_frame fd t).1)

-- Whatever bytes the client sends and however they arrive, `read_net_cmd_thread` stores nothing
-- past the 512 bytes of `cmd_cache`.
pub read_net_cmd_thread-in_bounds :
    (readings : List SystemStatus) (fd : ℤ) (t : CmdThread)
    → AllLe 255 t.socket.pending
    → length t.cmd_cache ≡ cache_size
    → length (read_net_cmd_thread readings fd t).1.cmd_cache ≡ cache_size
read_net_cmd_thread-in_bounds readings fd t b z =
    (run-IsSound readings fd t (record { bytes = b; sized = z })).sized
