-- ===== src/InstructionExecutor/Executor/Methods.antt =====
-- The methods of `InstructionExecutor` in src/instruction_executor/mod.rs.
use Prim.Native.String.{String}
use solana_bpf_simulator.Prelude.{
  ℕ, ◌≡◌, Bool, not, ◌&&◌, ◌||◌, Option, none, some, List, [], length, get_elem?, replicate, ltb,
  ◌==◌, if◌then◌else◌,
}
use solana_bpf_simulator.Prelude.Bytes.{le_bytes, be_bytes}
use solana_bpf_simulator.Prelude.Outcome.{Outcome, ok, err, panic, ok_or, unwrap}
use solana_bpf_simulator.Prelude.Method.{Method, pure, throw, gets, modify, lift, ◌>>=◌, ◌>>◌}
use solana_bpf_simulator.Words.{add64}
use solana_bpf_simulator.Memory.{AlignedMemory}
use solana_bpf_simulator.InstructionExecutor.Types.{
  Sdk, Error, invalid_instruction, invalid_account, missing_program, instruction_error, from_code,
  message, Account,
}
use solana_bpf_simulator.InstructionExecutor.Buffer.{Write, write, write_all, write_account}
use solana_bpf_simulator.InstructionExecutor.Vm.{Vm, StableResult}
use solana_bpf_simulator.InstructionExecutor.Executor.{InstructionExecutor}

-- `.map_err(|e| anyhow!("{}", e))`
texted {ℓ} : {A : Type ℓ} → Outcome String A → Outcome Error A
texted (ok a) = ok a
texted (err e) = err (message e)
texted panic = panic

module _ (mem : AlignedMemory) (vm : Vm mem) where
  abbrev pub Action : Type 0 → Type 0
  Action = Method (InstructionExecutor mem vm) Error

  -- A write into `self.buffer`.
  unfoldable pub on_buffer : (mem.Memory → Write mem) → Action ℕ
  on_buffer f self = elim (f self.buffer) [
    | ok (next, buffer) ↦ ok (next, record self { buffer = buffer })
    | err e ↦ err (e, self)
    | panic ↦ panic
  ]

  pub on_buffer_ok :
      (f : mem.Memory → Write mem) (self : InstructionExecutor mem vm) (next : ℕ) (b : mem.Memory)
      → f self.buffer ≡ ok (next, b)
      → on_buffer f self ≡ ok (next, record self { buffer = b })
  unfolding on_buffer
  on_buffer_ok f self next b e = rw (e, on_buffer)

module _ (mem : AlignedMemory) (vm : Vm mem) (sdk : Sdk) where
  -- `if jit { executable.jit_compile()? }`, in a build that has the compiler.
  unfoldable pub compile : Bool → vm.Executable → Outcome String vm.Executable
  compile jit executable = if jit && vm.has_jit then vm.jit_compile executable else ok executable

  unfoldable pub update_program : ℕ → Account → Bool → Action mem vm (Unit {0})
  unfolding texted
  update_program program_id account jit = do
    runtime ← gets (λ self. self.runtime)
    loaded ← lift (texted (vm.from_elf account.data_bytes runtime))
    executable ← lift (texted (compile jit loaded))
    modify λ self. record self {
      executable = some executable;
      context = record (self.context) { program_id = program_id };
    }
    at ← gets (λ self. self.program_id_offset)
    on_buffer mem vm (λ buffer. write_all mem buffer (some at) (be_bytes 32 program_id))
    pure tt

  unfoldable pub update_instruction : List ℕ → Action mem vm (Unit {0})
  update_instruction instruction = do
    instruction_size ← gets (λ self. self.instruction_size)
    if ltb instruction_size (length instruction) then throw invalid_instruction else do
      at ← gets (λ self. self.instruction_offset)
      on_buffer mem vm (λ buffer. write mem buffer (some at) (le_bytes 8 instruction_size))
      on_buffer mem vm (λ buffer. write_all mem buffer (some (add64 at 8)) instruction)
      pure tt

  unfoldable pub update_account : ℕ → ℕ → Account → Bool → Bool → Bool → Action mem vm (Unit {0})
  update_account i key account is_signer is_writable is_executable = do
    sizes ← gets (λ self. self.account_sizes)
    account_size ← lift (unwrap (sizes.size i))
    if ltb account_size (length account.data_bytes) then throw invalid_account else do
      offsets ← gets (λ self. self.account_offsets)
      offset ← lift (unwrap (get_elem? offsets i))
      on_buffer mem vm λ buffer.
          write_account mem sdk buffer account_size (some offset) key account is_signer is_writable
            is_executable
      pure tt

  -- `as_slice_mut()[..len].fill(0)`, with `len` the whole length.
  unfoldable pub zeroed : mem.Memory → mem.Memory
  zeroed m = mem.as_slice_mut m (replicate (length (mem.as_slice m)) 0)

  -- The closing `match` of `execute`.
  unfoldable pub verdict : StableResult → Action mem vm (Unit {0})
  verdict (StableResult.ok code) =
      if code == sdk.success then pure tt else throw (instruction_error (from_code code))
  verdict (StableResult.err e) = throw (message e)

  unfoldable pub run : vm.Executable → Action mem vm StableResult
  run executable self =
      elim (vm.run self.runtime executable self.context self.stack self.heap self.buffer
        (not vm.has_jit || not (vm.is_compiled executable))) [
          | none ↦ panic
          | some done ↦ ok (
            done.result,
            record self {
              context = done.context;
              stack = done.stack;
              heap = done.heap;
              buffer = done.input;
            },
          )
        ]

  unfoldable pub execute : Action mem vm (Unit {0})
  unfolding verdict
  execute = do
    modify λ self. record self { stack = zeroed self.stack }
    modify λ self. record self { heap = zeroed self.heap }
    loaded ← gets (λ self. self.executable)
    executable ← lift (ok_or loaded missing_program)
    modify λ self. record self { context = record (self.context) { return_data = (0, []) } }
    result ← run executable
    verdict result

  -- `None` where no return data was set.
  unfoldable pub get_return_data : InstructionExecutor mem vm → Option (ℕ × List ℕ)
  get_return_data self = elim self.context.return_data.1 [
    | [] ↦ none
    | _ ↦ some self.context.return_data
  ]
