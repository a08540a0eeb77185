-- ===== src/InstructionExecutor/History.antt =====
-- What becomes of an executor of src/instruction_executor/mod.rs over any sequence of its methods, runs of
-- programs that write into the buffer and calls that fail among them.
pub mod Shape
pub mod Writes
pub mod Ends
pub mod Calls
pub mod Runs
pub mod Reach
pub mod Fresh
mod Tests
use solana_bpf_simulator.Prelude.{ℕ, ◌<◌, ◌≡◌, Bool, List, length}
use solana_bpf_simulator.Prelude.Outcome.{Outcome, ok, err}
use solana_bpf_simulator.Memory.{AlignedMemory}
use solana_bpf_simulator.InstructionExecutor.Types.{Sdk, Error, Account}
use solana_bpf_simulator.InstructionExecutor.Vm.{Vm}
use solana_bpf_simulator.InstructionExecutor.Executor.{InstructionExecutor}
use solana_bpf_simulator.InstructionExecutor.Executor.Methods.{
  Action, update_program, update_instruction, update_account, execute,
}

-- A call of a method that takes `&mut self`, with its arguments.
pub data Call : Type 0 where
  new_program : ℕ → Account → Bool → Call
  new_instruction : List ℕ → Call
  new_account : ℕ → ℕ → Account → Bool → Bool → Bool → Call
  run_program : Call

-- The account that the call names is one of the executor's.
abbrev pub Within : List ℕ → Call → Type 0
Within sizes (new_program _ _ _) = Unit {0}
Within sizes (new_instruction _) = Unit {0}
Within sizes (new_account i _ _ _ _ _) = i < length sizes
Within sizes run_program = Unit {0}

module _ (mem : AlignedMemory) (vm : Vm mem) (sdk : Sdk) where
  unfoldable pub perform : Call → Action mem vm (Unit {0})
  perform (new_program program_id account jit) = update_program mem vm sdk program_id account jit
  perform (new_instruction instruction) = update_instruction mem vm sdk instruction
  perform (new_account i key account is_signer is_writable is_executable) =
      update_account mem vm sdk i key account is_signer is_writable is_executable
  perform run_program = execute mem vm sdk

  -- The executors that calls make of the first one, whether a call returns or fails.
  pub data Reaches (start : InstructionExecutor mem vm) : InstructionExecutor mem vm → Type 0 where
    begins : Reaches start start
    returns :
        {self next : InstructionExecutor mem vm} (call : Call)
        → Reaches start self
        → perform call self ≡ ok (tt, next)
        → Reaches start next
    fails :
        {self next : InstructionExecutor mem vm} {e : Error} (call : Call)
        → Reaches start self
        → perform call self ≡ err (e, next)
        → Reaches start next
