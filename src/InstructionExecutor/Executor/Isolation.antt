-- ===== src/InstructionExecutor/Executor/Isolation.antt =====
-- What one run can see of the runs before it.
use solana_bpf_simulator.Prelude.{
  ℕ, ◌≡◌, refl, ap, ◌∙◌, none, some, List, length, replicate, length-replicate,
}
use solana_bpf_simulator.Prelude.Outcome.{err}
use solana_bpf_simulator.Memory.{AlignedMemory, IsAlignedMemory}
use solana_bpf_simulator.InstructionExecutor.Types.{Sdk, missing_program}
use solana_bpf_simulator.InstructionExecutor.Vm.{Vm}
use solana_bpf_simulator.InstructionExecutor.Executor.{InstructionExecutor}
use solana_bpf_simulator.InstructionExecutor.Executor.Methods.{zeroed, execute}

module _ (mem : AlignedMemory) (laws : IsAlignedMemory mem) (vm : Vm mem) (sdk : Sdk) where
  -- What was in a memory does not show once it is zeroed.
  pub zeroed-as_slice_mut :
      (m : mem.Memory) (l : List ℕ)
      → length l ≡ length (mem.as_slice m)
      → zeroed mem vm sdk (mem.as_slice_mut m l) ≡ zeroed mem vm sdk m
  unfolding zeroed
  zeroed-as_slice_mut m l h =
      ap (λ k. mem.as_slice_mut (mem.as_slice_mut m l) (replicate (length k) 0))
        (laws.as_slice-as_slice_mut m l h)
      ∙ ap (λ n. mem.as_slice_mut (mem.as_slice_mut m l) (replicate n 0)) h
      ∙ laws.as_slice_mut-as_slice_mut m l _ h (length-replicate {A = ℕ} _ 0)

  -- `execute` without a program returns `MissingProgram`, and has cleared the stack and the heap.
  pub execute_missing :
      (self : InstructionExecutor mem vm)
      → self.executable ≡ none
      → execute mem vm sdk self
        ≡ err (
          missing_program,
          record self { stack = zeroed mem vm sdk self.stack; heap = zeroed mem vm sdk self.heap },
        )
  unfolding execute
  execute_missing self e = rw e refl

  -- Where a program is loaded, the bytes of the stack and the heap and the return data that an earlier
  -- run left have no influence on a run.
  pub execute_isolated :
      (self : InstructionExecutor mem vm) (stack heap : List ℕ) (return_data : ℕ × List ℕ)
      (executable : vm.Executable)
      → self.executable ≡ some executable
      → length stack ≡ length (mem.as_slice self.stack)
      → length heap ≡ length (mem.as_slice self.heap)
      → execute mem vm sdk (record self {
        stack = mem.as_slice_mut self.stack stack;
        heap = mem.as_slice_mut self.heap heap;
        context = record (self.context) { return_data = return_data };
      })
        ≡ execute mem vm sdk self
  unfolding execute
  execute_isolated self stack heap return_data executable e hs hh =
      rw (e, zeroed-as_slice_mut self.stack stack hs, zeroed-as_slice_mut self.heap heap hh) refl
