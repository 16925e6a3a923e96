-- ===== src/Compute/Commands.antt =====
-- What the command stream of `build_dispatch_commands` (src/compute.rs) tells the engine.
use gpu_compute_nostd.Base.{
  ℕ, ◌%◌, ◌^◌, ◌<◌, ◌≡◌, refl, ap, ◌∙◌, Option, none, some, List, [], ◌∷◌, ◌++◌, map, bit_and,
  bit_or, u32, ◌<<◌, ◌>>>◌, All, arith,
}
use mathlib.Core.Path.{ap₂}
use gpu_compute_nostd.Compute.Methods.{
  nvc6c0_set_program_region_a, nvc6c0_set_program_region_b, nvc6c0_set_shader_program,
  nvc6c0_set_shared_memory_size, nvc6c0_cb_selector, nvc6c0_set_constant_buffer_bind,
  nvc6c0_set_block_dim_x, nvc6c0_set_block_dim_y, nvc6c0_set_block_dim_z, nvc6c0_launch_dim_x,
  nvc6c0_launch_dim_y, nvc6c0_launch_dim_z, nvc6c0_launch, nvc6c0_set_report_semaphore_a,
  nvc6c0_set_report_semaphore_b, nvc6c0_set_report_semaphore_c, nvc6c0_set_report_semaphore_d,
}
use gpu_compute_nostd.Compute.Engine.{
  ShaderProgram, GridDim, BlockDim, ConstantBufferBinding, GpuFence, ComputeEngine,
  const_buffer_commands, fence_commands, build_dispatch_commands,
}
use gpu_compute_nostd.Fifo.Method.{gpu_method_1}
use gpu_compute_nostd.Fifo.Encoding.{
  opcode, count_of, subchannel_of, method_of, gpu_method_incr_fields,
}

-- a method call as the hardware reads it from a header and the word behind it
pub record Call : Type 0 where
  pub op : ℕ
  pub count : ℕ
  pub subchannel : ℕ
  pub method : ℕ
  pub value : ℕ

-- Every header is taken to announce one word.
abbrev pub decode : List ℕ → List Call
decode (w ∷ v ∷ rest) =
    record {
      op = opcode w;
      count = count_of w;
      subchannel = subchannel_of w;
      method = method_of w;
      value = v;
    }
    ∷ decode rest
decode _ = []

-- the call of an incrementing method with one word
abbrev pub call : ℕ → ℕ × ℕ → Call
call sc (method, value) = record {
  op = 1;
  count = 1;
  subchannel = sc;
  method = method;
  value = value;
}

-- the words of these calls
abbrev emit : ℕ → List (ℕ × ℕ) → List ℕ
emit sc [] = []
emit sc ((m, v) ∷ ws) = gpu_method_1 sc m ∷ v ∷ emit sc ws

abbrev IsMethod : ℕ → Type 0
IsMethod m = (m < 2 ^ 15) × (m % 4 ≡ 0)

decode-emit :
    (sc : ℕ) (ws : List (ℕ × ℕ))
    → sc < 8
    → All (λ w. IsMethod w.0) ws
    → decode (emit sc ws) ≡ map (call sc) ws
unfolding gpu_method_1
decode-emit sc [] s h = refl
decode-emit sc ((m, v) ∷ ws) s h =
    let f = gpu_method_incr_fields sc m 1 s h.0.0 h.0.1 in
    ap₂ (λ (c : Call) (cs : List Call). c ∷ cs) (ground (arith, f)) (decode-emit sc ws s h.1)

emit-append : (sc : ℕ) (xs ys : List (ℕ × ℕ)) → emit sc (xs ++ ys) ≡ emit sc xs ++ emit sc ys
emit-append sc [] ys = refl
emit-append sc ((m, v) ∷ xs) ys = ap (λ t. gpu_method_1 sc m ∷ v ∷ t) (emit-append sc xs ys)

-- the calls for the program and its shared memory
abbrev pub program_calls : ShaderProgram → List (ℕ × ℕ)
program_calls shader =
    (nvc6c0_set_program_region_a, u32 (shader.allocation.gpu_va >>> 32))
    ∷ (nvc6c0_set_program_region_b, u32 shader.allocation.gpu_va)
    ∷ (nvc6c0_set_shader_program, shader.entry_offset)
    ∷ (nvc6c0_set_shared_memory_size, shader.shared_mem_size)
    ∷ []

-- the two calls for each constant buffer
abbrev pub buffer_calls : List ConstantBufferBinding → List (ℕ × ℕ)
buffer_calls [] = []
buffer_calls (cb ∷ cbs) =
    (nvc6c0_cb_selector, cb.slot)
    ∷ (nvc6c0_set_constant_buffer_bind, bit_or 1 (u32 (bit_and cb.size 0x1FFFF << 4)))
    ∷ buffer_calls cbs

-- the calls for the dimensions, and the launch behind them
abbrev pub launch_calls : GridDim → BlockDim → List (ℕ × ℕ)
launch_calls grid block =
    (nvc6c0_set_block_dim_x, block.x)
    ∷ (nvc6c0_set_block_dim_y, block.y)
    ∷ (nvc6c0_set_block_dim_z, block.z)
    ∷ (nvc6c0_launch_dim_x, grid.x)
    ∷ (nvc6c0_launch_dim_y, grid.y)
    ∷ (nvc6c0_launch_dim_z, grid.z)
    ∷ (nvc6c0_launch, 0)
    ∷ []

-- the calls for the semaphore that the fence waits for
abbrev pub fence_calls : Option GpuFence → List (ℕ × ℕ)
fence_calls none = []
fence_calls (some fence) =
    (nvc6c0_set_report_semaphore_a, u32 (fence.allocation.gpu_va >>> 32))
    ∷ (nvc6c0_set_report_semaphore_b, u32 fence.allocation.gpu_va)
    ∷ (nvc6c0_set_report_semaphore_c, fence.signal_value)
    ∷ (nvc6c0_set_report_semaphore_d, 0x10004)
    ∷ []

abbrev pub dispatch_calls :
    ShaderProgram → GridDim → BlockDim → List ConstantBufferBinding → Option GpuFence → List (ℕ × ℕ)
dispatch_calls shader grid block cbs fence =
    program_calls shader ++ (buffer_calls cbs ++ (launch_calls grid block ++ fence_calls fence))

const_buffer_commands-emit :
    (sc : ℕ) (cbs : List ConstantBufferBinding)
    → const_buffer_commands sc cbs ≡ emit sc (buffer_calls cbs)
unfolding const_buffer_commands
const_buffer_commands-emit sc [] = refl
const_buffer_commands-emit sc (cb ∷ cbs) =
    ap
      (λ t.
        gpu_method_1 sc nvc6c0_cb_selector
        ∷ cb.slot
        ∷ gpu_method_1 sc nvc6c0_set_constant_buffer_bind
        ∷ bit_or 1 (u32 (bit_and cb.size 0x1FFFF << 4))
        ∷ t)
      (const_buffer_commands-emit sc cbs)

fence_commands-emit : (sc : ℕ) (f : Option GpuFence) → fence_commands sc f ≡ emit sc (fence_calls f)
unfolding fence_commands
fence_commands-emit sc none = refl
fence_commands-emit sc (some f) = refl

build-emit :
    (e : ComputeEngine) (shader : ShaderProgram) (grid : GridDim) (block : BlockDim)
    (cbs : List ConstantBufferBinding) (fence : Option GpuFence)
    → build_dispatch_commands e shader grid block cbs fence
      ≡ emit e.subchannel (dispatch_calls shader grid block cbs fence)
unfolding build_dispatch_commands
build-emit e shader grid block cbs fence =
    let sc : ℕ = e.subchannel in
    rw (const_buffer_commands-emit sc cbs, fence_commands-emit sc fence)
      (rw (emit-append sc (buffer_calls cbs) (launch_calls grid block ++ fence_calls fence)) refl)

All-append :
    (xs ys : List (ℕ × ℕ))
    → All (λ w. IsMethod w.0) xs
    → All (λ w. IsMethod w.0) ys
    → All (λ w. IsMethod w.0) (xs ++ ys)
All-append [] ys h k = k
All-append (x ∷ xs) ys h k = (h.0, All-append xs ys h.1 k)

buffer_calls-IsMethod :
    (cbs : List ConstantBufferBinding) → All (λ w. IsMethod w.0) (buffer_calls cbs)
buffer_calls-IsMethod [] = tt
buffer_calls-IsMethod (cb ∷ cbs) = (omega arith, (omega arith, buffer_calls-IsMethod cbs))

fence_calls-IsMethod : (f : Option GpuFence) → All (λ w. IsMethod w.0) (fence_calls f)
fence_calls-IsMethod none = tt
fence_calls-IsMethod (some f) = omega arith

-- On a subchannel below 8 the stream decodes to single-word calls on that subchannel, in this order:
-- the program and its shared memory, each constant buffer, the block's and the grid's dimensions,
-- the launch, and with a fence its semaphore after the launch.
pub build_dispatch_commands-decode :
    (e : ComputeEngine) (shader : ShaderProgram) (grid : GridDim) (block : BlockDim)
    (cbs : List ConstantBufferBinding) (fence : Option GpuFence)
    → e.subchannel < 8
    → decode (build_dispatch_commands e shader grid block cbs fence)
      ≡ map (call e.subchannel) (dispatch_calls shader grid block cbs fence)
build_dispatch_commands-decode e shader grid block cbs fence s =
    ap decode (build-emit e shader grid block cbs fence)
    ∙ decode-emit e.subchannel (dispatch_calls shader grid block cbs fence) s (
        All-append (program_calls shader) _ (omega arith) (
          All-append (buffer_calls cbs) _ (buffer_calls-IsMethod cbs)
            (All-append (launch_calls grid block) _ (omega arith) (fence_calls-IsMethod fence))))
