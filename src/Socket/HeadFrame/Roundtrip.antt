-- ===== src/Socket/HeadFrame/Roundtrip.antt =====
-- A head frame that is sent as its bytes is read back whole.
use itrace.Prelude.{
  ℕ, ◌^◌, ◌≤◌, ◌<◌, ◌≡◌, ◌≢◌, refl, ap, ◌∙◌, List, ◌++◌, some, pos, drop, take, length,
  length-append, arith,
}
use itrace.Posix.{Source}
use itrace.Posix.Reliable.{serves}
use itrace.Socket.Transfer.Laws.{read_data-IsRead}
use itrace.Socket.Transfer.Patience.{Patient, read_data-Patient}
use itrace.Socket.Transfer.Onward.{Onward, read_data-Onward}
use itrace.Socket.HeadFrame.{
  HeadFrame, head_frame_size, to_bytes, of_bytes, init_head_frame, read_head_frame,
}

-- Each field is an `unsigned int`.
pub record IsWords (hf : HeadFrame) : Type 0 where
  pub id : hf.id < 2 ^ 32
  pub len : hf.len < 2 ^ 32
  pub flag : hf.flag < 2 ^ 32
  pub res : hf.res < 2 ^ 32

of_bytes-to_bytes : (hf : HeadFrame) → IsWords hf → of_bytes (to_bytes hf) ≡ hf
unfolding of_bytes to_bytes
of_bytes-to_bytes hf w = ground arith

pub length-to_bytes : (hf : HeadFrame) → length (to_bytes hf) ≡ head_frame_size
unfolding to_bytes
length-to_bytes hf = refl

cut-take :
    (hf : HeadFrame) (rest : List ℕ) → take head_frame_size (to_bytes hf ++ rest) ≡ to_bytes hf
unfolding to_bytes
cut-take hf rest = refl

cut-drop : (hf : HeadFrame) (rest : List ℕ) → drop head_frame_size (to_bytes hf ++ rest) ≡ rest
unfolding to_bytes
cut-drop hf rest = refl

-- If a kernel that refuses nothing, with at most ten empty transfers between others, has the bytes
-- of a head frame first, `read_head_frame` succeeds, gives the frame that was sent, and the stream
-- goes on behind it. So it does, in particular, for every frame that `init_head_frame` makes.
pub read_head_frame-to_bytes :
    (s : Source) (hf : HeadFrame) (rest : List ℕ)
    → IsWords hf
    → s.pending ≡ to_bytes hf ++ rest
    → Patient 0 s.answers
    → head_frame_size ≤ serves s.answers
    → let r = read_head_frame s in (r.ret ≡ some (pos 1)) × (r.hf ≡ hf) × (r.left.pending ≡ rest)
unfolding read_head_frame
read_head_frame-to_bytes s hf rest w e p sv = ground (
  arith,
  read_data-Patient s head_frame_size p,
  of_bytes-to_bytes hf w,
  length-to_bytes hf,
  length-append (to_bytes hf) rest,
  cut-take hf rest,
  cut-drop hf rest,
)

pub read_head_frame-Onward :
    (s : Source) (hf : HeadFrame) (rest : List ℕ)
    → s.pending ≡ to_bytes hf ++ rest
    → Patient 0 s.answers
    → head_frame_size ≤ serves s.answers
    → Onward head_frame_size s.answers (read_head_frame s).left.answers
unfolding read_head_frame
read_head_frame-Onward s hf rest e p sv =
    read_data-Onward s head_frame_size p
      (omega (arith, ap length e ∙ length-append (to_bytes hf) rest, length-to_bytes hf)) sv

init_head_frame-IsWords : (id flag res len : ℕ) → IsWords (init_head_frame id flag res len)
unfolding init_head_frame
init_head_frame-IsWords id flag res len = omega arith

pub init_head_frame-small :
    (id flag res len : ℕ)
    → id < 2 ^ 32
    → flag < 2 ^ 32
    → res < 2 ^ 32
    → len < 2 ^ 32
    → init_head_frame id flag res len ≡ record { id = id; len = len; flag = flag; res = res }
unfolding init_head_frame
init_head_frame-small id flag res len a b c d = ground arith

-- The result is never the size of a head frame.
pub read_head_frame-ret : (s : Source) → (read_head_frame s).ret ≢ some (pos head_frame_size)
unfolding read_head_frame
read_head_frame-ret s h = ground (arith, (read_data-IsRead s head_frame_size).outcome)
