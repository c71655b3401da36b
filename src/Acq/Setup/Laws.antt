-- ===== src/Acq/Setup/Laws.antt =====
-- What a child process of acq_data_trans has done when its set-up ends.
use itrace.Prelude.{
  ℕ, zero, suc, ◌≡◌, refl, sym, ap, ◌∙◌, subst, ◌⊎◌, inl, inr, List, [], ◌∷◌, ◌++◌, Option, none,
  some, Bool, true, false, if◌then◌else◌, Bool-cases, ℤ, pos, negsuc, is_pos, ◌==ℤ◌, arith,
  append-nil,
}
use itrace.Posix.{Sink}
use itrace.Acq.Buffers.{DmaBuffer, init_dma_read_buffer}
use itrace.Lifecycle.Sources.{acq_child_source}
use itrace.Acq.Setup.Indices.{IndexView, indices-View}
use itrace.Acq.Setup.{
  Pipe, Effect, soft_reset, start_reader, start_sender, start_clear, Calls, End, no_device, exited,
  blocked, ready, Child, open_dma_device, set_sink, clear_dma_dev_sour, start_threads,
  after_indices, write_indices, map_area, set_up_from, make_pipes, make_buffers, set_up_child,
}

-- `r` has written both indices to the writing end of `dma`, the pipe of free buffers, and nothing else.
abbrev pub Written : Calls → (dma : Pipe) → Child → Type 0
Written c dma r =
    ((r.sinks dma.write_end).accepted ≡ (c.sinks dma.write_end).accepted ++ 0 ∷ 1 ∷ [])
    × ((fd : ℤ) → ((fd ==ℤ dma.write_end) ≡ true) ⊎ (r.sinks fd ≡ c.sinks fd))

abbrev WrittenBefore : Calls → Child → Type 0
WrittenBefore c r = (dma : Pipe) × (c.dma_index_pipe ≡ some dma) × Written c dma r

-- The process left by `exit`: what it mapped is unmapped after all else that it did, and threads were
-- started only behind the indices.
pub record IsCleared (c : Calls) (opening : List Effect) (r : Child) : Type 0 where
  pub started : List Effect
  pub whole : r.effects ≡ opening ++ (started ++ clear_dma_dev_sour c.area)
  pub behind : (started ≡ []) ⊎ WrittenBefore c r

-- All threads run: the reading and the sending thread have the same two buffers, of the indices 0 and
-- 1 over the mapped area, and the opposite ends of the two pipes; the pipe of free buffers has both
-- indices, and the clear thread has the device, the socket and the ends of the pipes.
pub record IsReady (conn_fd : ℤ) (c : Calls) (opening : List Effect) (r : Child) : Type 0 where
  pub area : ℕ
  pub b0 : DmaBuffer
  pub b1 : DmaBuffer
  pub dma : Pipe
  pub sock : Pipe
  pub mapped : c.area ≡ some area
  pub made_0 : init_dma_read_buffer c.allocated_0 0 area ≡ some b0
  pub made_1 : init_dma_read_buffer c.allocated_1 1 area ≡ some b1
  pub dma_made : c.dma_index_pipe ≡ some dma
  pub sock_made : c.socket_index_pipe ≡ some sock
  pub whole :
      r.effects
      ≡ opening
        ++ start_reader record {
          buff_0 = b0;
          buff_1 = b1;
          dma_index_r_fd = dma.read_end;
          socket_index_w_fd = sock.write_end;
          dma_fd = c.opened;
        }
          ∷ start_sender record {
            buff_0 = b0;
            buff_1 = b1;
            dma_index_w_fd = dma.write_end;
            socket_index_r_fd = sock.read_end;
            socket_fd = conn_fd;
          }
          ∷ start_clear (
              acq_child_source c.opened conn_fd dma.read_end dma.write_end sock.read_end
                sock.write_end b0.data_at b1.data_at)
          ∷ []
  pub written : Written c dma r

abbrev pub Ended : ℤ → Calls → (opening : List Effect) → Child → End → Type 0
Ended conn_fd c opening r no_device = (is_pos c.opened ≡ false) × (r.effects ≡ [])
Ended conn_fd c opening r exited = IsCleared c opening r
Ended conn_fd c opening r blocked =
    (dma : Pipe) × (c.dma_index_pipe ≡ some dma)
    × ((r.sinks dma.write_end).answers ≡ [])
    × (r.effects ≡ opening)
Ended conn_fd c opening r ready = IsReady conn_fd c opening r

abbrev pub IsSetUp : ℤ → Calls → Child → Type 0
IsSetUp conn_fd c r = Ended conn_fd c (open_dma_device c.opened).1 r r.end

set_sink-at : (sinks : ℤ → Sink) (fd : ℤ) (s : Sink) → set_sink sinks fd s fd ≡ s
set_sink-at sinks (pos n) s = ground arith
set_sink-at sinks (negsuc n) s = ground arith

set_sink-apart :
    (sinks : ℤ → Sink) (fd : ℤ) (s : Sink) (at : ℤ)
    → ((at ==ℤ fd) ≡ true) ⊎ (set_sink sinks fd s at ≡ sinks at)
set_sink-apart sinks fd s at = elim (Bool-cases (at ==ℤ fd)) [
  | inl e ↦ inl e
  | inr e ↦ inr (ap (λ (b : Bool). if b then s else sinks at) e)
]

-- The end of the child, without what opening the device has done.
module _ (conn_fd : ℤ) (c : Calls) (area : ℕ) (mapped : c.area ≡ some area) where
  cleared :
      (r : Child) (started : List Effect)
      → r.effects ≡ started ++ clear_dma_dev_sour (some area)
      → (started ≡ []) ⊎ WrittenBefore c r
      → IsCleared c [] r
  cleared r started e b = record {
    started = started;
    whole = e ∙ ap (λ a. started ++ clear_dma_dev_sour a) (sym mapped);
    behind = b;
  }

  module _ (b0 b1 : DmaBuffer) (made_0 : init_dma_read_buffer c.allocated_0 0 area ≡ some b0)
      (made_1 : init_dma_read_buffer c.allocated_1 1 area ≡ some b1) where
    start_threads-Ended :
        (dma sock : Pipe)
        → c.dma_index_pipe ≡ some dma
        → c.socket_index_pipe ≡ some sock
        → (s : ℤ → Sink) → Written c dma (record { end = ready; effects = []; sinks = s })
        → (rd sd cl : Bool)
        → let t = start_threads conn_fd c.opened area b0 b1 dma sock rd sd cl in
          Ended conn_fd c [] (record { end = t.0; effects = t.1; sinks = s }) t.0
    unfolding start_threads
    start_threads-Ended dma sock de se s w false sd cl = cleared _ [] refl (inl refl)
    start_threads-Ended dma sock de se s w true false cl =
        cleared _ (_ ∷ []) refl (inr (dma, de, w))
    start_threads-Ended dma sock de se s w true true false =
        cleared _ (_ ∷ _ ∷ []) refl (inr (dma, de, w))
    start_threads-Ended dma sock de se s w true true true = record {
      area = area;
      b0 = b0;
      b1 = b1;
      dma = dma;
      sock = sock;
      mapped = mapped;
      made_0 = made_0;
      made_1 = made_1;
      dma_made = de;
      sock_made = se;
      whole = refl;
      written = w;
    }

    after_indices-Ended :
        (dma sock : Pipe)
        → c.dma_index_pipe ≡ some dma
        → c.socket_index_pipe ≡ some sock
        → (sink : Sink) (ret : Option ℤ) → IndexView (c.sinks dma.write_end) sink ret
        → let s = set_sink c.sinks dma.write_end sink in
          let r = after_indices conn_fd c.opened c area b0 b1 dma sock s ret in
          Ended conn_fd c [] r r.end
    unfolding after_indices
    after_indices-Ended dma sock de se sink none v =
        (dma, de, ap (λ k. k.answers) (set_sink-at c.sinks dma.write_end sink) ∙ v, refl)
    after_indices-Ended dma sock de se sink (some ret) v = go (ret ==ℤ pos 2) v
      where
        s : ℤ → Sink
        s = set_sink c.sinks dma.write_end sink

        go :
            (b : Bool)
            → (b ≡ false) ⊎ (sink.accepted ≡ (c.sinks dma.write_end).accepted ++ 0 ∷ 1 ∷ [])
            → let r : Child = elim b [
              | true ↦
                  let t =
                    start_threads conn_fd c.opened area b0 b1 dma sock c.reader_created
                      c.sender_created c.clear_created in
                  record { end = t.0; effects = t.1; sinks = s }
              | false ↦ record { end = exited; effects = clear_dma_dev_sour (some area); sinks = s }
            ] in
              Ended conn_fd c [] r r.end
        go true (inl e) = ground arith
        go true (inr w) =
            start_threads-Ended dma sock de se s
              (
                ap (λ k. k.accepted) (set_sink-at c.sinks dma.write_end sink) ∙ w,
                set_sink-apart c.sinks dma.write_end sink,
              )
              c.reader_created c.sender_created c.clear_created
        go false v = cleared _ [] refl (inl refl)

    make_pipes-Ended :
        (dma sock : Option Pipe)
        → c.dma_index_pipe ≡ dma
        → c.socket_index_pipe ≡ sock
        → let r = make_pipes conn_fd c.opened c area b0 b1 dma sock in Ended conn_fd c [] r r.end
    unfolding make_pipes write_indices
    make_pipes-Ended none sock de se = cleared _ [] refl (inl refl)
    make_pipes-Ended (some dma) none de se = cleared _ [] refl (inl refl)
    make_pipes-Ended (some dma) (some sock) de se =
        after_indices-Ended dma sock de se _ _ (indices-View dma.write_end (c.sinks dma.write_end))

  make_buffers-Ended :
      (buff_0 buff_1 : Option DmaBuffer)
      → init_dma_read_buffer c.allocated_0 0 area ≡ buff_0
      → init_dma_read_buffer c.allocated_1 1 area ≡ buff_1
      → let r = make_buffers conn_fd c.opened c area buff_0 buff_1 in Ended conn_fd c [] r r.end
  unfolding make_buffers
  make_buffers-Ended none buff_1 e0 e1 = cleared _ [] refl (inl refl)
  make_buffers-Ended (some b0) none e0 e1 = cleared _ [] refl (inl refl)
  make_buffers-Ended (some b0) (some b1) e0 e1 =
      make_pipes-Ended b0 b1 e0 e1 c.dma_index_pipe c.socket_index_pipe refl refl

map_area-Ended :
    (conn_fd : ℤ) (c : Calls) (area : Option ℕ)
    → c.area ≡ area
    → let r = map_area conn_fd c.opened c area in Ended conn_fd c [] r r.end
unfolding map_area
map_area-Ended conn_fd c none e = record {
  started = [];
  whole = ap clear_dma_dev_sour (sym e);
  behind = inl refl;
}
map_area-Ended conn_fd c (some area) e = make_buffers-Ended conn_fd c area e _ _ refl refl

-- Opening the device comes before all else.
behind_opening :
    (conn_fd : ℤ) (c : Calls) (opening effects : List Effect) (s : ℤ → Sink) (e : End)
    → is_pos c.opened ≡ true
    → Ended conn_fd c [] (record { end = e; effects = effects; sinks = s }) e
    → Ended conn_fd c opening (record { end = e; effects = opening ++ effects; sinks = s }) e
behind_opening conn_fd c opening effects s no_device p v = ground arith
behind_opening conn_fd c opening effects s exited p v = record {
  started = v.started;
  whole = ap (λ r. opening ++ r) v.whole;
  behind = v.behind;
}
behind_opening conn_fd c opening effects s blocked p v =
    (v.0, v.1, v.2, ap (λ r. opening ++ r) v.3 ∙ append-nil opening)
behind_opening conn_fd c opening effects s ready p v = record {
  area = v.area;
  b0 = v.b0;
  b1 = v.b1;
  dma = v.dma;
  sock = v.sock;
  mapped = v.mapped;
  made_0 = v.made_0;
  made_1 = v.made_1;
  dma_made = v.dma_made;
  sock_made = v.sock_made;
  whole = ap (λ r. opening ++ r) v.whole;
  written = v.written;
}

opened-Ended :
    (conn_fd : ℤ) (c : Calls) (o : ℤ)
    → c.opened ≡ o
    → let r : Child = set_up_from conn_fd c o in Ended conn_fd c (open_dma_device o).1 r r.end
unfolding set_up_from open_dma_device
opened-Ended conn_fd c (pos zero) e = (ap is_pos e, refl)
opened-Ended conn_fd c (negsuc n) e = (ap is_pos e, refl)
opened-Ended conn_fd c (pos (suc n)) e =
    behind_opening conn_fd c (soft_reset (pos (suc n)) ∷ []) _ _ _ (ap is_pos e) (
      subst (λ o. let r = map_area conn_fd o c c.area in Ended conn_fd c [] r r.end) e
        (map_area-Ended conn_fd c c.area refl))

-- For any results of the calls: without the device nothing is done; if the child leaves by `exit`,
-- what it mapped is unmapped last, and threads were started only after both indices were written to
-- the first pipe made; it blocks only when that pipe takes no more; and when it is ready, the two
-- threads share the two buffers of the area and the two pipes that the two calls of `pipe` have made,
-- each at one end of each pipe; the writing end that the sending thread has of the first, the pipe of
-- free buffers, has taken both indices, and no other descriptor has been written to.
pub set_up_child-IsSetUp : (conn_fd : ℤ) (c : Calls) → IsSetUp conn_fd c (set_up_child conn_fd c)
unfolding set_up_child
set_up_child-IsSetUp conn_fd c = opened-Ended conn_fd c c.opened refl
