-- ===== src/Compute/Room.antt =====
-- The room that a dispatch of src/compute.rs takes in the push buffer.
use gpu_compute_nostd.Base.{
  ℕ, ◌+◌, ◌*◌, ◌%◌, ◌^◌, ◌≤◌, ◌<◌, ◌≡◌, ◌⊎◌, refl, ap, ◌∙◌, inl, inr, Bool, true, false, Option,
  none, some, List, [], ◌∷◌, ◌++◌, arith, length,
}
use gpu_compute_nostd.Hardware.{store, Device, History}
use gpu_compute_nostd.Mmio.{GpuRegs}
use gpu_compute_nostd.Memory.{VramAllocator}
use gpu_compute_nostd.Fifo.Channel.{Channel}
use gpu_compute_nostd.Fifo.Submit.{IsValid, submit_cases}
use gpu_compute_nostd.Compute.Engine.{
  ShaderProgram, GridDim, BlockDim, ConstantBufferBinding, GpuFence, ComputeEngine,
  const_buffer_commands, fence_commands, fence_if, finish_wait, build_dispatch_commands, dispatch,
}

abbrev pub fence_words : Option GpuFence → ℕ
fence_words none = 0
fence_words (some fence) = 8

length-const_buffer_commands :
    (sc : ℕ) (cbs : List ConstantBufferBinding) (rest : List ℕ)
    → length (const_buffer_commands sc cbs ++ rest) ≡ 4 * length cbs + length rest
unfolding const_buffer_commands
length-const_buffer_commands sc [] rest = omega arith
length-const_buffer_commands sc (cb ∷ cbs) rest =
    omega (arith, length-const_buffer_commands sc cbs rest)

length-fence_commands :
    (sc : ℕ) (fence : Option GpuFence) → length (fence_commands sc fence) ≡ fence_words fence
unfolding fence_commands
length-fence_commands sc none = refl
length-fence_commands sc (some fence) = refl

-- Eleven method writes of two words, two more for each constant buffer and four for a fence.
pub length-build_dispatch_commands :
    (e : ComputeEngine) (shader : ShaderProgram) (grid : GridDim) (block : BlockDim)
    (cbs : List ConstantBufferBinding) (fence : Option GpuFence)
    → length (build_dispatch_commands e shader grid block cbs fence)
      ≡ 22 + 4 * length cbs + fence_words fence
unfolding build_dispatch_commands
length-build_dispatch_commands e shader grid block cbs fence =
    rw (length-const_buffer_commands e.subchannel cbs)
      (rw (length-fence_commands e.subchannel fence) (omega arith))

module _ (e : ComputeEngine) (regs : GpuRegs) (ch : Channel) (shader : ShaderProgram)
    (grid : GridDim) (block : BlockDim) (cbs : List ConstantBufferBinding) (v : VramAllocator)
    (d : Device) (h : History) where
  -- A dispatch that does not wait, on a valid channel with fewer than 2^24 constant buffers, answers `true` exactly if the push buffer has
  -- 88 bytes left and 16 more for each constant buffer; it then takes just these and rings the
  -- doorbell once with the next put index, its only access to the device. Otherwise the channel and
  -- the device stay as they were; the engine and the allocator do in both cases.
  pub dispatch_room :
      IsValid ch
      → length cbs < 2 ^ 24
      → let n = 88 + 16 * length cbs in
        let (r, h') = dispatch e regs ch shader grid block cbs v false d h in
        (r.engine ≡ e)
        × (r.allocator ≡ v)
        × (((ch.push_size < ch.push_offset + n) × (r.result ≡ false) × (r.channel ≡ ch) × (h' ≡ h))
            ⊎ ((ch.push_offset + n ≤ ch.push_size)
                × (r.result ≡ true)
                × (r.channel ≡ record ch {
                  push_offset = ch.push_offset + n;
                  gpfifo_put = (ch.gpfifo_put + 1) % ch.gpfifo_entries;
                })
                × (h' ≡ store (regs.bar0 + ch.doorbell_offset) r.channel.gpfifo_put ∷ h)))
  unfolding dispatch fence_if finish_wait
  dispatch_room valid few =
      let commands : List ℕ = build_dispatch_commands e shader grid block cbs none in
      let async : Option ℕ → Bool = λ s. elim s [ some va ↦ true | none ↦ false ] in
      let bytes : length commands * 4 ≡ 88 + 16 * length cbs =
        omega (arith, length-build_dispatch_commands e shader grid block cbs none) in
      (
        refl,
        refl,
        elim (submit_cases ch regs commands d h valid (omega (arith, bytes))) [
          | inl (full, refused, same, quiet) ↦
              inl (omega (arith, full, bytes), ap async refused, same, quiet)
          | inr (room, returned, moved, kicked) ↦ inr (
            omega (arith, room, bytes),
            ap async returned,
            moved
                ∙ ap
                    (λ n. record ch {
                      push_offset = ch.push_offset + n;
                      gpfifo_put = (ch.gpfifo_put + 1) % ch.gpfifo_entries;
                    })
                    bytes,
            kicked,
          )
        ],
      )

-- The commands of a dispatch take fewer than 2 GiB.
pub short_commands :
    (e : ComputeEngine) (shader : ShaderProgram) (grid : GridDim) (block : BlockDim)
    (cbs : List ConstantBufferBinding) (fence : Option GpuFence)
    → length cbs < 2 ^ 24
    → length (build_dispatch_commands e shader grid block cbs fence) < 2 ^ 29
short_commands e shader grid block cbs none few =
    omega (arith, length-build_dispatch_commands e shader grid block cbs none)
short_commands e shader grid block cbs (some fence) few =
    omega (arith, length-build_dispatch_commands e shader grid block cbs (some fence))
