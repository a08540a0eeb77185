-- ===== src/InstructionExecutor/History/Reach.antt =====
-- The shape of the executors that calls make, and how a further call ends.
use solana_bpf_simulator.Prelude.{ℕ, List, subst}
use solana_bpf_simulator.Prelude.Outcome.{Outcome}
use solana_bpf_simulator.Memory.{AlignedMemory, IsAlignedMemory}
use solana_bpf_simulator.InstructionExecutor.Types.{Sdk, Error}
use solana_bpf_simulator.InstructionExecutor.Vm.{Vm}
use solana_bpf_simulator.InstructionExecutor.Executor.{InstructionExecutor}
use solana_bpf_simulator.InstructionExecutor.History.{
  Call, new_program, new_instruction, new_account, run_program, perform, Reaches, begins, returns,
  fails,
}
use solana_bpf_simulator.InstructionExecutor.History.Shape.{IsShaped}
use solana_bpf_simulator.InstructionExecutor.History.Ends.{IsTame, Ends}
use solana_bpf_simulator.InstructionExecutor.History.Calls.{
  program-Ends, instruction-Ends, account-Ends,
}
use solana_bpf_simulator.InstructionExecutor.History.Runs.{run-Ends}

module _ (mem : AlignedMemory) (laws : IsAlignedMemory mem) (vm : Vm mem) (tame : IsTame vm)
    (sdk : Sdk) (sizes : List ℕ) (instruction_size : ℕ) where
  abbrev State : Type 0
  State = InstructionExecutor mem vm

  abbrev Shaped : State → Type 0
  Shaped = IsShaped mem vm sdk sizes instruction_size

  abbrev Ended : Call → Outcome (Error × State) (Unit {0} × State) → Type 0
  Ended = Ends mem vm sdk sizes instruction_size

  pub perform-Ends :
      (self : State) → Shaped self → (call : Call) → Ended call (perform mem vm sdk call self)
  unfolding perform
  perform-Ends self shaped (new_program program_id account jit) =
      program-Ends mem laws vm tame sdk sizes instruction_size self shaped program_id account jit
  perform-Ends self shaped (new_instruction instruction) =
      instruction-Ends mem laws vm tame sdk sizes instruction_size self shaped instruction
  perform-Ends self shaped (new_account i key account s w e) =
      account-Ends mem laws vm tame sdk sizes instruction_size self shaped i key account s w e
  perform-Ends self shaped run_program =
      run-Ends mem laws vm tame sdk sizes instruction_size self shaped

  -- Whatever is called on an executor of the shape, in whatever order, it keeps the shape.
  pub Reaches-IsShaped :
      {start self : State} → Shaped start → Reaches mem vm sdk start self → Shaped self
  Reaches-IsShaped shaped begins = shaped
  Reaches-IsShaped shaped (returns call before e) =
      subst (Ended call) e (perform-Ends _ (Reaches-IsShaped shaped before) call)
  Reaches-IsShaped shaped (fails call before e) =
      subst (Ended call) e (perform-Ends _ (Reaches-IsShaped shaped before) call)

  -- Where the machine's calls return and runs keep the input's length, take an executor that calls
  -- make, whether they return or fail, of one whose buffer and offsets are those of `new`: its buffer
  -- and offsets are those of `new` too, and another call ends in a value or an error, again with such
  -- an executor, and in a panic only if it names an account that is not there.
  pub Reaches-Ends :
      {start self : State} (call : Call)
      → Shaped start
      → Reaches mem vm sdk start self
      → Shaped self × Ended call (perform mem vm sdk call self)
  Reaches-Ends {self = self} call shaped reached = (now, perform-Ends self now call)
    where
      now : Shaped self
      now = Reaches-IsShaped shaped reached
