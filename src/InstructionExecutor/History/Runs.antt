-- ===== src/InstructionExecutor/History/Runs.antt =====
-- `execute` on an executor of the shape, whatever the program does to the input.
use solana_bpf_simulator.Prelude.{
  ℕ, [], ◌≡◌, refl, ◌∙◌, Bool, true, false, not, ◌||◌, Option, none, some, List, ◌==◌,
  if◌then◌else◌,
}
use solana_bpf_simulator.Prelude.Outcome.{Outcome, ok}
use solana_bpf_simulator.Prelude.Method.{pure, throw, ◌>>=◌, bind_ok}
use solana_bpf_simulator.Memory.{AlignedMemory, IsAlignedMemory}
use solana_bpf_simulator.InstructionExecutor.Types.{Sdk, Error, instruction_error, from_code}
use solana_bpf_simulator.InstructionExecutor.Vm.{Vm, Run, StableResult}
use solana_bpf_simulator.InstructionExecutor.Executor.{InstructionExecutor}
use solana_bpf_simulator.InstructionExecutor.Executor.Methods.{execute, run, zeroed, verdict}
use solana_bpf_simulator.InstructionExecutor.Executor.Isolation.{execute_missing}
use solana_bpf_simulator.InstructionExecutor.History.{Call, run_program}
use solana_bpf_simulator.InstructionExecutor.History.Shape.{IsShaped, IsShaped-buffer}
use solana_bpf_simulator.InstructionExecutor.History.Ends.{IsTame, Ends}

module _ (mem : AlignedMemory) (laws : IsAlignedMemory mem) (vm : Vm mem) (tame : IsTame vm)
    (sdk : Sdk) (sizes : List ℕ) (instruction_size : ℕ) where
  abbrev State : Type 0
  State = InstructionExecutor mem vm

  abbrev Shaped : State → Type 0
  Shaped = IsShaped mem vm sdk sizes instruction_size

  abbrev Ended : Call → Outcome (Error × State) (Unit {0} × State) → Type 0
  Ended = Ends mem vm sdk sizes instruction_size

  module _ (self : State) (shaped : Shaped self) where
    pub run-Ends : Ended run_program (execute mem vm sdk self)
    unfolding execute run verdict
    run-Ends = loaded self.executable refl
      where
        cleared : State
        cleared = record self {
          stack = zeroed mem vm sdk self.stack;
          heap = zeroed mem vm sdk self.heap;
        }

        ready : State
        ready = record cleared { context = record (self.context) { return_data = (0, []) } }

        judged :
            (next : State) (result : StableResult)
            → Shaped next
            → Ended run_program (verdict mem vm sdk result next)
        judged next (StableResult.err x) shaped_next = shaped_next
        judged next (StableResult.ok code) shaped_next = decided (code == sdk.success)
          where
            decided :
                (b : Bool)
                → Ended run_program
                    ((if b then pure tt else throw (instruction_error (from_code code))) next)
            decided true = shaped_next
            decided false = shaped_next

        after : Run mem.Memory vm.SysvarCache vm.LogCollector → State
        after done = record ready {
          context = done.context;
          stack = done.stack;
          heap = done.heap;
          buffer = done.input;
        }

        started :
            (executable : vm.Executable)
            → self.executable ≡ some executable
            → execute mem vm sdk self ≡ (run mem vm sdk executable >>= verdict mem vm sdk) ready
        started executable e = rw e refl

        ran :
            (executable : vm.Executable) (done : Run mem.Memory vm.SysvarCache vm.LogCollector)
            → vm.run self.runtime executable ready.context ready.stack ready.heap self.buffer
                (not vm.has_jit || not (vm.is_compiled executable))
              ≡ some done
            → run mem vm sdk executable ready ≡ ok (done.result, after done)
        ran executable done e = rw (e, run) refl

        loaded :
            (o : Option vm.Executable)
            → self.executable ≡ o
            → Ended run_program (execute mem vm sdk self)
        loaded none e = rw (execute_missing mem laws vm sdk self e) (
            IsShaped-buffer mem vm sdk sizes instruction_size self cleared shaped refl refl refl
              refl refl refl)
        loaded (some executable) e =
            let (done, returned, kept) =
              tame.run self.runtime executable ready.context ready.stack ready.heap self.buffer
                (not vm.has_jit || not (vm.is_compiled executable)) in
            rw
              (started executable e
                ∙ bind_ok (run mem vm sdk executable) (verdict mem vm sdk) ready
                    (ran executable done returned))
              (judged (after done) done.result (
                IsShaped-buffer mem vm sdk sizes instruction_size self (after done) shaped refl refl
                  refl refl refl kept))
