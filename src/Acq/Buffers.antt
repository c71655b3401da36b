-- ===== src/Acq/Buffers.antt =====
-- acq_data_trans/server.c, `init_dma_read_buffer`: two buffers laid over one mapped area.
use itrace.Prelude.{
  ℕ, ◌+◌, ◌*◌, ◌≤◌, ◌<◌, ◌≡◌, ◌≢◌, Option, none, some, Bool, if◌then◌else◌, ℤ, pos, arith,
}

-- `MAX_DMA_LENGTH`
abbrev pub max_dma_length : ℕ
max_dma_length = 0x400000

-- `struct DmaBuffer`; `data` is an address.
pub record DmaBuffer : Type 0 where
  pub index : ℕ
  pub data_at : ℕ
  pub length : ℤ
  pub capity : ℕ

-- `allocated` says whether `malloc` of the structure succeeds.
unfoldable pub init_dma_read_buffer : (allocated : Bool) → (index start_addr : ℕ) → Option DmaBuffer
init_dma_read_buffer allocated index start_addr =
    if allocated
    then some record {
      index = index;
      data_at = index * max_dma_length + start_addr;
      length = pos 0;
      capity = max_dma_length;
    }
    else none

-- The address `a` lies in the part of the area that the buffer may fill.
abbrev Covers : DmaBuffer → ℕ → Type 0
Covers b a = (b.data_at ≤ a) × (a < b.data_at + b.capity)

-- The two buffers made with different indices below 2 over the same area of `2 * MAX_DMA_LENGTH`
-- bytes lie inside the area, and no address belongs to both.
buffers_disjoint :
    (start i j a : ℕ) {b c : DmaBuffer}
    → i < 2
    → j < 2
    → i ≢ j
    → init_dma_read_buffer Bool.true i start ≡ some b
    → init_dma_read_buffer Bool.true j start ≡ some c
    → Covers b a
    → (start ≤ a) × (a < start + 2 * max_dma_length) × ¬ Covers c a
unfolding init_dma_read_buffer
buffers_disjoint start i j a {b} {c} hi hj ne eb ec cov = ground arith
