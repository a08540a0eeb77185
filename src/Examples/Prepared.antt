-- ===== src/Examples/Prepared.antt =====
-- examples/raw/examples/check.rs: what the calls before a run make of the executor.
use solana_bpf_simulator.Prelude.{
  ℕ, ◌+◌, ◌≤◌, ◌≡◌, refl, ◌∙◌, subst, true, false, some, List, [], ◌∷◌, ◌++◌, map, All, length, set,
  drop, arith,
}
use solana_bpf_simulator.Prelude.Outcome.{ok}
use solana_bpf_simulator.Prelude.Method.{◌>>◌, bind_ok}
use solana_bpf_simulator.Memory.{AlignedMemory, IsAlignedMemory}
use solana_bpf_simulator.InstructionExecutor.Types.{Sdk, Account}
use solana_bpf_simulator.InstructionExecutor.Vm.{Vm}
use solana_bpf_simulator.InstructionExecutor.Executor.{InstructionExecutor}
use solana_bpf_simulator.InstructionExecutor.Executor.Methods.{
  compile, update_program, update_instruction, update_account,
}
use solana_bpf_simulator.InstructionExecutor.View.{View, Represents}
use solana_bpf_simulator.InstructionExecutor.Refinement.Update.{update_account_lem}
use solana_bpf_simulator.InstructionExecutor.Refinement.Program.{
  update_program_lem, update_instruction_lem,
}
use solana_bpf_simulator.Examples.{update_accounts, prepare}
use solana_bpf_simulator.Examples.Placed.{
  IsInRange, Given, data_len, placed, new_entry-placed, set_all, set_all_lem, length-entries,
  length-map, Fitting, Fitting-all,
}

module _ (mem : AlignedMemory) (laws : IsAlignedMemory mem) (vm : Vm mem) (sdk : Sdk)
    (sizes : List ℕ) where
  update_accounts_lem :
      (i : ℕ) (xs : List Given) (self : InstructionExecutor mem vm) (v : View)
      → Represents mem vm sdk sizes self v
      → Fitting sizes i xs
      → All (λ x. IsInRange x.1) xs
      → (b : mem.Memory) × (update_accounts mem vm sdk i xs self
          ≡ ok (tt, record self { buffer = b }))
        × Represents mem vm sdk sizes
            (record self { buffer = b })
            (record v { entries = set_all i xs v.entries })
  unfolding update_accounts
  update_accounts_lem i [] self v r fit ranges = (self.buffer, refl, r)
  update_accounts_lem i ((meta, account) ∷ xs) self v r (at, fit) (range, ranges) =
      let (b, run, r₁) =
        update_account_lem mem laws vm sdk sizes self v r i (length account.data_bytes) meta.pubkey
          account meta.is_signer meta.is_writable false at (omega arith) range.owner range.lamports
          range.rent_epoch in
      let (c, more, r₂) =
        update_accounts_lem (i + 1) xs (record self { buffer = b })
          (record v { entries = set v.entries i (placed (meta, account)) })
          (subst
            (λ y.
              Represents mem vm sdk sizes (record self { buffer = b })
                (record v { entries = set v.entries i y }))
            (new_entry-placed meta account) r₁)
          fit ranges in
      (
        c,
        bind_ok
              (update_account mem vm sdk i meta.pubkey account meta.is_signer meta.is_writable
                false)
              (λ _. update_accounts mem vm sdk (i + 1) xs) self run
            ∙ more,
        r₂,
      )

module _ (mem : AlignedMemory) (laws : IsAlignedMemory mem) (vm : Vm mem) (sdk : Sdk)
    (xs : List Given) (self : InstructionExecutor mem vm) (v : View)
    (r : Represents mem vm sdk (map data_len xs) self v) where
  -- Where the spaces are those of the accounts' data, the calls put the program, the instruction and the
  -- accounts into the view.
  pub prepare_lem :
      (program_id : ℕ) (program : Account) (ix_data : List ℕ) (loaded executable : vm.Executable)
      → vm.from_elf program.data_bytes self.runtime ≡ ok loaded
      → compile mem vm sdk true loaded ≡ ok executable
      → length ix_data ≤ self.instruction_size
      → All (λ x. IsInRange x.1) xs
      → (b : mem.Memory) × (prepare mem vm sdk program_id program ix_data xs self
          ≡ ok (
            tt,
            record self {
              executable = some executable;
              context = record (self.context) { program_id = program_id };
              buffer = b;
            },
          ))
        × Represents mem vm sdk
            (map data_len xs)
            (record self {
              executable = some executable;
              context = record (self.context) { program_id = program_id };
              buffer = b;
            })
            (record {
              entries = map placed xs;
              instruction = ix_data ++ drop (length ix_data) v.instruction;
              program_id = program_id;
            })
  unfolding prepare
  prepare_lem program_id program ix_data loaded executable elf compiled short ranges =
      let (a, run₁, r₁) =
        update_program_lem mem laws vm sdk sizes self v r program_id program true loaded executable
          elf compiled in
      let (b, run₂, r₂) =
        update_instruction_lem mem laws vm sdk sizes (known a)
          (record v { program_id = program_id }) r₁ ix_data short in
      let (c, run₃, r₃) =
        update_accounts_lem mem laws vm sdk sizes 0 xs (known b)
          (record v { program_id = program_id; instruction = stale }) r₂ (Fitting-all [] 0 xs refl)
          ranges in
      (
        c,
        bind_ok (update_program mem vm sdk program_id program true)
              (λ _. update_instruction mem vm sdk ix_data >> update_accounts mem vm sdk 0 xs) self
              run₁
            ∙ bind_ok (update_instruction mem vm sdk ix_data) (λ _. update_accounts mem vm sdk 0 xs)
                (known a) run₂
            ∙ run₃,
        subst
            (λ entries.
              Represents mem vm sdk sizes (known c)
                (record { entries = entries; instruction = stale; program_id = program_id }))
            (set_all_lem 0 xs [] v.entries refl
              (omega (arith, length-entries sdk sizes v.entries r.entries, length-map xs)))
            r₃,
      )
    where
      sizes : List ℕ
      sizes = map data_len xs

      stale : List ℕ
      stale = ix_data ++ drop (length ix_data) v.instruction

      known : mem.Memory → InstructionExecutor mem vm
      known b = record self {
        executable = some executable;
        context = record (self.context) { program_id = program_id };
        buffer = b;
      }
