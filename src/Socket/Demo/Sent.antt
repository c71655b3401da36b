-- ===== src/Socket/Demo/Sent.antt =====
-- The bytes that `open_clt` (private_libary/linux_socket/main.c) puts on its socket.
use itrace.Prelude.{
  ℕ, zero, suc, ◌+◌, ◌*◌, ◌≤◌, ◌<◌, ◌≡◌, refl, ap, sym, ◌∙◌, List, [], ◌++◌, length, some, true,
  pos, arith, append-nil, append_assoc,
}
use itrace.Posix.{Sink}
use itrace.Posix.Reliable.{serves}
use itrace.Time.Tag.{print_padded-two}
use itrace.Socket.Transfer.{write_data}
use itrace.Socket.Transfer.Patience.{Patient}
use itrace.Socket.Transfer.Onward.{write_data-AllWritten}
use itrace.Socket.HeadFrame.{HeadFrame, head_frame_size, to_bytes, init_head_frame}
use itrace.Socket.HeadFrame.Roundtrip.{length-to_bytes, init_head_frame-small}
use itrace.Socket.Demo.{hello, clt_loop}

-- The length of each message, and of a message with its head frame.
abbrev hello_size : ℕ
hello_size = 15

abbrev pub frame_size : ℕ
frame_size = 31

pub length-hello : (i : ℕ) → i < 100 → length (hello i) ≡ hello_size
unfolding hello
length-hello i h = rw (print_padded-two i h) refl

-- The head frame of message `i`.
abbrev pub head : ℕ → HeadFrame
head i = record { id = i; len = hello_size; flag = i + 1; res = i + 2 }

-- `left` messages from the `i`th on, as they stand on the socket.
abbrev pub wire : (left i : ℕ) → List ℕ
wire zero i = []
wire (suc left) i = to_bytes (head i) ++ (hello i ++ wire left (i + 1))

init_head_frame-head :
    (i : ℕ) → i < 100 → init_head_frame i (i + 1) (i + 2) (length (hello i)) ≡ head i
init_head_frame-head i h =
    ap (λ n. init_head_frame i (i + 1) (i + 2) n) (length-hello i h)
    ∙ init_head_frame-small i (i + 1) (i + 2) hello_size (omega arith) (omega arith) (omega arith)
        (omega arith)

clt_loop-round :
    (left i : ℕ) (s : Sink)
    → i < 100
    → let head_sent = write_data s (to_bytes (head i)) head_frame_size in
      let body_sent = write_data head_sent.sink (hello i) (length (hello i)) in
      head_sent.ret ≡ some (pos 1)
      → body_sent.ret ≡ some (pos 1)
      → clt_loop (suc left) i s ≡ clt_loop left (i + 1) body_sent.sink
unfolding clt_loop
clt_loop-round left i s h e f = ground (arith, init_head_frame-head i h)

pub clt_loop-wire :
    (left i : ℕ) (s : Sink)
    → left + i ≤ 100
    → Patient 0 s.answers
    → left * frame_size ≤ serves s.answers
    → let c = clt_loop left i s in (c.closed ≡ true) × (c.sink.accepted ≡ s.accepted ++ wire left i)
unfolding clt_loop
clt_loop-wire zero i s h p sv = (refl, sym (append-nil s.accepted))
clt_loop-wire (suc left) i s h p sv =
    let a = write_data s (to_bytes (head i)) head_frame_size in
    let b = write_data a.sink (hello i) (length (hello i)) in
    let w =
      write_data-AllWritten s (to_bytes (head i)) head_frame_size (length-to_bytes (head i)) p
        (omega arith) in
    let l = length-hello i (omega arith) in
    let v =
      write_data-AllWritten a.sink (hello i) (length (hello i)) refl w.patient
        (omega (arith, w.cost, l, length-to_bytes (head i))) in
    let ih =
      clt_loop-wire left (i + 1) b.sink (omega arith) v.patient
        (omega (arith, w.cost, v.cost, l, length-to_bytes (head i))) in
    let e = clt_loop-round left i s (omega arith) w.ret v.ret in
    (
      ap (λ c. c.closed) e ∙ ih.0,
      ap (λ c. c.sink.accepted) e
          ∙ ih.1
          ∙ ap (λ t. t ++ wire left (i + 1)) (v.accepted ∙ ap (λ t. t ++ hello i) w.accepted)
          ∙ append_assoc (s.accepted ++ to_bytes (head i)) (hello i) (wire left (i + 1))
          ∙ append_assoc s.accepted (to_bytes (head i)) (hello i ++ wire left (i + 1)),
    )
