-- ===== src/InstructionExecutor/History/Calls.antt =====
-- The writing methods on an executor of the shape, on all their branches.
use Prim.Native.String.{String}
use solana_bpf_simulator.Prelude.{
  ℕ, zero, suc, [], ◌∷◌, ◌+◌, ◌≤◌, ◌<◌, ◌≡◌, ◌≢◌, refl, ap, ◌∙◌, Bool, true, false, ◌&&◌, ◌++◌,
  Option, none, some, List, length, get_elem?, ltb, if◌then◌else◌, arith, lengths,
}
use solana_bpf_simulator.Prelude.Bytes.{le_bytes, be_bytes}
use solana_bpf_simulator.Prelude.Outcome.{Outcome, ok, err, panic}
use solana_bpf_simulator.Prelude.Method.{◌>>=◌}
use solana_bpf_simulator.Memory.{AlignedMemory, IsAlignedMemory}
use solana_bpf_simulator.InstructionExecutor.Types.{Sdk, Error, Account}
use solana_bpf_simulator.InstructionExecutor.Layout.{slot, length-slot}
use solana_bpf_simulator.InstructionExecutor.Vm.{Vm}
use solana_bpf_simulator.InstructionExecutor.Executor.{InstructionExecutor}
use solana_bpf_simulator.InstructionExecutor.Executor.Methods.{
  compile, update_program, update_instruction, update_account,
}
use solana_bpf_simulator.InstructionExecutor.History.{
  Call, new_program, new_instruction, new_account,
}
use solana_bpf_simulator.InstructionExecutor.History.Shape.{
  slot_start, IsShaped, IsShaped-buffer, offsets-none,
}
use solana_bpf_simulator.InstructionExecutor.History.Writes.{
  with_bytes-IsShaped, slot_place, update_account_writes, update_instruction_writes,
  update_program_writes,
}
use solana_bpf_simulator.InstructionExecutor.History.Ends.{IsTame, Ends}

module _ (mem : AlignedMemory) (laws : IsAlignedMemory mem) (vm : Vm mem) (tame : IsTame vm)
    (sdk : Sdk) (sizes : List ℕ) (instruction_size : ℕ) where
  abbrev State : Type 0
  State = InstructionExecutor mem vm

  abbrev Shaped : State → Type 0
  Shaped = IsShaped mem vm sdk sizes instruction_size

  abbrev Ended : Call → Outcome (Error × State) (Unit {0} × State) → Type 0
  Ended = Ends mem vm sdk sizes instruction_size

  compile-returns :
      (jit : Bool) (executable : vm.Executable) → compile mem vm sdk jit executable ≢ panic
  unfolding compile
  compile-returns jit executable = tested (jit && vm.has_jit)
    where
      tested : (b : Bool) → (if b then vm.jit_compile executable else ok executable) ≢ panic
      tested true = tame.jit_compile executable
      tested false = cc

  get_elem?-length : (l : List ℕ) (i : ℕ) → i < length l → get_elem? l i ≢ none
  get_elem?-length [] i h = elim h [ ]
  get_elem?-length (x ∷ l) zero h = cc
  get_elem?-length (x ∷ l) (suc i) h = get_elem?-length l i (omega arith)

  module _ (self : State) (shaped : Shaped self) where
    pub program-Ends :
        (program_id : ℕ) (account : Account) (jit : Bool)
        → Ended
            (new_program program_id account jit)
            (update_program mem vm sdk program_id account jit self)
    unfolding update_program
    program-Ends program_id account jit = load (vm.from_elf account.data_bytes self.runtime) refl
      where
        Goal : Type 0
        Goal =
            Ended (new_program program_id account jit)
              (update_program mem vm sdk program_id account jit self)

        known : vm.Executable → State
        known executable = record self {
          executable = some executable;
          context = record (self.context) { program_id = program_id };
        }

        known-IsShaped : (executable : vm.Executable) → Shaped (known executable)
        known-IsShaped executable =
            IsShaped-buffer mem vm sdk sizes instruction_size self (known executable) shaped refl
              refl refl refl refl refl

        compiled :
            (loaded : vm.Executable)
            → vm.from_elf account.data_bytes self.runtime ≡ ok loaded
            → (o : Outcome String vm.Executable) → compile mem vm sdk jit loaded ≡ o
            → Goal
        compiled loaded elf (ok executable) e =
            rw
              (
                elf,
                e,
                update_program_writes mem laws vm sdk sizes instruction_size self shaped program_id
                    executable,
                ◌>>=◌,
              )
              (with_bytes-IsShaped mem laws vm sdk sizes instruction_size (known executable)
                (known-IsShaped executable) self.program_id_offset (be_bytes 32 program_id)
                (omega (lengths, shaped.program_id_offset)))
        compiled loaded elf (err x) e = rw (elf, e, ◌>>=◌) shaped
        compiled loaded elf panic e = absurd (compile-returns jit loaded e)

        load :
            (o : Outcome String vm.Executable)
            → vm.from_elf account.data_bytes self.runtime ≡ o
            → Goal
        load (ok loaded) e = compiled loaded e (compile mem vm sdk jit loaded) refl
        load (err x) e = rw (e, ◌>>=◌) shaped
        load panic e = absurd (tame.from_elf account.data_bytes self.runtime e)

    pub instruction-Ends :
        (instruction : List ℕ)
        → Ended (new_instruction instruction) (update_instruction mem vm sdk instruction self)
    unfolding update_instruction
    instruction-Ends instruction = tested (ltb self.instruction_size (length instruction)) refl
      where
        short :
            ltb self.instruction_size (length instruction) ≡ false
            → length instruction ≤ instruction_size
        short e = ground (arith, shaped.instruction)

        tested :
            (b : Bool)
            → ltb self.instruction_size (length instruction) ≡ b
            → Ended (new_instruction instruction) (update_instruction mem vm sdk instruction self)
        tested true e = rw e shaped
        tested false e =
            rw
              (update_instruction_writes mem laws vm sdk sizes instruction_size self shaped
                instruction (short e))
              (with_bytes-IsShaped mem laws vm sdk sizes instruction_size self shaped
                self.instruction_offset (le_bytes 8 self.instruction_size ++ instruction)
                (omega (lengths, short e, shaped.instruction_offset)))

    module _ (i key : ℕ) (account : Account) (s w e : Bool) where
      abbrev AccountEnds : Type 0
      AccountEnds =
          Ended (new_account i key account s w e)
            (update_account mem vm sdk i key account s w e self)

      -- An account that is there.
      inside : (size : ℕ) → get_elem? sizes i ≡ some size → AccountEnds
      unfolding update_account
      inside size at = tested (ltb size (length account.data_bytes)) refl
        where
          tested : (b : Bool) → ltb size (length account.data_bytes) ≡ b → AccountEnds
          tested true h = rw (shaped.sized.at i size at, h) shaped
          tested false h =
              rw
                (update_account_writes mem laws vm sdk sizes instruction_size self shaped i size key
                  account s w e at short)
                (with_bytes-IsShaped mem laws vm sdk sizes instruction_size self shaped
                  (8 + slot_start sdk sizes i) (slot sdk size key account s w e)
                  (omega (
                    arith,
                    length-slot sdk size key account s w e short,
                    slot_place mem laws vm sdk sizes instruction_size self shaped i size at,
                  )))
            where
              short : length account.data_bytes ≤ size
              short = ground (arith, h)

      outside : get_elem? sizes i ≡ none → AccountEnds
      unfolding update_account
      outside at = sized (self.account_sizes.size i) refl
        where
          no_offset : get_elem? self.account_offsets i ≡ none
          no_offset = ap (λ l. get_elem? l i) shaped.offsets ∙ offsets-none sdk sizes i 8 at

          absent : ¬ (i < length sizes)
          absent h = absurd (get_elem?-length sizes i h at)

          tested :
              (size : ℕ)
              → self.account_sizes.size i ≡ some size
              → (b : Bool) → ltb size (length account.data_bytes) ≡ b
              → AccountEnds
          tested size known true h = rw (known, h) shaped
          tested size known false h = rw (known, h, no_offset) absent

          sized : (o : Option ℕ) → self.account_sizes.size i ≡ o → AccountEnds
          sized none known = rw known absent
          sized (some size) known = tested size known (ltb size (length account.data_bytes)) refl

      pub account-Ends : AccountEnds
      account-Ends = found (get_elem? sizes i) refl
        where
          found : (o : Option ℕ) → get_elem? sizes i ≡ o → AccountEnds
          found (some size) at = inside size at
          found none at = outside at
