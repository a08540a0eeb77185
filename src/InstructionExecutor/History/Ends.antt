-- ===== src/InstructionExecutor/History/Ends.antt =====
-- How a call on an executor of the shape may end, and what is assumed of the virtual machine for that.
use solana_bpf_simulator.Prelude.{ℕ, ◌≡◌, ◌≢◌, Bool, some, List, length}
use solana_bpf_simulator.Prelude.Outcome.{Outcome, ok, err, panic}
use solana_bpf_simulator.Memory.{AlignedMemory}
use solana_bpf_simulator.InstructionExecutor.Types.{Sdk, Error}
use solana_bpf_simulator.InstructionExecutor.Vm.{Vm, Run}
use solana_bpf_simulator.InstructionExecutor.Context.{InvokeContext}
use solana_bpf_simulator.InstructionExecutor.Executor.{InstructionExecutor}
use solana_bpf_simulator.InstructionExecutor.History.{Call, Within}
use solana_bpf_simulator.InstructionExecutor.History.Shape.{IsShaped}

-- What is assumed of the virtual machine: its calls return, and a program that writes into the input
-- leaves it as long as it was.
pub record IsTame {mem : AlignedMemory} (vm : Vm mem) : Type 0 where
  pub from_elf : (bytes : List ℕ) (runtime : vm.BuiltinProgram) → vm.from_elf bytes runtime ≢ panic
  pub jit_compile : (executable : vm.Executable) → vm.jit_compile executable ≢ panic
  pub run :
      (runtime : vm.BuiltinProgram) (executable : vm.Executable)
      (context : InvokeContext vm.SysvarCache vm.LogCollector) (stack heap input : mem.Memory)
      (interpreted : Bool)
      → (done : Run mem.Memory vm.SysvarCache vm.LogCollector) × (vm.run runtime executable context
            stack heap input interpreted
          ≡ some done)
        × (length (mem.as_slice done.input) ≡ length (mem.as_slice input))

module _ (mem : AlignedMemory) (vm : Vm mem) (sdk : Sdk) (sizes : List ℕ)
    (instruction_size : ℕ) where
  abbrev State : Type 0
  State = InstructionExecutor mem vm

  abbrev Shaped : State → Type 0
  Shaped = IsShaped mem vm sdk sizes instruction_size

  -- The outcome is a value or an error, with an executor of the shape. Only a call for an account that is
  -- not there panics.
  abbrev pub Ends : Call → Outcome (Error × State) (Unit {0} × State) → Type 0
  Ends call (ok (_, next)) = Shaped next
  Ends call (err (_, next)) = Shaped next
  Ends call panic = ¬ (Within sizes call)
