-- ===== src/Socket/Demo/Received.antt =====
-- What a reader of the frames of `open_clt` (private_libary/linux_socket/main.c) gets.
use itrace.Prelude.{
  ℕ, zero, suc, ◌+◌, ◌*◌, ◌≤◌, ◌<◌, ◌≡◌, refl, ap, sym, ◌∙◌, List, [], ◌∷◌, ◌++◌, length, some,
  Bool, true, ℤ, pos, arith,
}
use itrace.Posix.{Answer, Sink, Source}
use itrace.Posix.Reliable.{serves}
use itrace.Socket.Transfer.{read_data}
use itrace.Socket.Transfer.Patience.{Patient}
use itrace.Socket.Transfer.Onward.{read_data-FirstRead}
use itrace.Socket.HeadFrame.{HeadFrame, read_head_frame}
use itrace.Socket.HeadFrame.Roundtrip.{IsWords, read_head_frame-to_bytes, read_head_frame-Onward}
use itrace.Socket.Server.{create_clt_netsock}
use itrace.Socket.Demo.{hello, Client, clt_loop, open_clt}
use itrace.Socket.Demo.Sent.{frame_size, length-hello, head, wire, clt_loop-wire}

-- A reader that takes `n` frames as they are laid out: a head frame, then as many bytes as it says.
abbrev pub read_frames : (n : ℕ) → Source → List (HeadFrame × List ℕ)
read_frames zero s = []
read_frames (suc n) s =
    let h = read_head_frame s in
    let b = read_data h.left h.hf.len in (h.hf, b.stored) ∷ read_frames n b.left

-- The frames of `n` messages from the `i`th on.
abbrev pub hellos : (n i : ℕ) → List (HeadFrame × List ℕ)
hellos zero i = []
hellos (suc n) i = (head i, hello i) ∷ hellos n (i + 1)

head-IsWords : (i : ℕ) → i < 100 → IsWords (head i)
head-IsWords i h = record {
  id = omega arith;
  len = omega arith;
  flag = omega arith;
  res = omega arith;
}

read_frames-wire :
    (n i : ℕ) (s : Source)
    → n + i ≤ 100
    → s.pending ≡ wire n i
    → Patient 0 s.answers
    → n * frame_size ≤ serves s.answers
    → read_frames n s ≡ hellos n i
read_frames-wire zero i s h e p sv = refl
read_frames-wire (suc n) i s h e p sv =
    let rest = hello i ++ wire n (i + 1) in
    let lh = length-hello i (omega arith) in
    let (ret, hf, pending) =
      read_head_frame-to_bytes s (head i) rest (head-IsWords i (omega arith)) e p (omega arith) in
    let o = read_head_frame-Onward s (head i) rest e p (omega arith) in
    let r = read_head_frame s in
    let b =
      ap (λ (x : HeadFrame). read_data r.left x.len) hf ∙ ap (λ k. read_data r.left k) (sym lh) in
    let v =
      read_data-FirstRead (hello i) (wire n (i + 1)) r.left pending o.0 (omega (arith, o.1, lh)) in
    let ih =
      read_frames-wire n (i + 1) (read_data r.left (length (hello i))).left (omega arith) v.pending
        v.patient (omega (arith, o.1, v.cost, lh)) in
    cc (b, hf, v.stored, ih)

-- On a new connection of a patient kernel, `open_clt` sends all its messages and comes to its `close`;
-- a reader behind another patient kernel that takes twenty head frames, and after each as many bytes
-- as it says, gets exactly the twenty messages, in order, with the head frames that name them.
pub open_clt-received :
    (socket : ℤ) (address : Bool) (connects : List Bool) (fd : ℕ) (s : Sink)
    (arriving : List Answer)
    → (create_clt_netsock socket address connects).ret ≡ some (pos fd)
    → s.accepted ≡ []
    → Patient 0 s.answers
    → 20 * frame_size ≤ serves s.answers
    → Patient 0 arriving
    → 20 * frame_size ≤ serves arriving
    → (c : Client) × (open_clt socket address connects s ≡ some c)
      × (c.closed ≡ true)
      × (read_frames 20 (record { pending = c.sink.accepted; answers = arriving }) ≡ hellos 20 0)
unfolding open_clt
open_clt-received socket address connects fd s arriving connected new p sv q sw =
    let w = clt_loop-wire 20 0 s (omega arith) p sv in
    (
      clt_loop 20 0 s,
      ground (arith, connected),
      w.0,
      read_frames-wire 20 0 _ (omega arith) (w.1 ∙ ap (λ t. t ++ wire 20 0) new) q sw,
    )
