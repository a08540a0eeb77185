-- ===== src/InstructionExecutor/Refinement/RoundTrip.antt =====
-- `update_account` followed by `get_account`, and one `update_instruction` after another.
use solana_bpf_simulator.Prelude.{
  ℕ, zero, suc, ◌^◌, ◌≤◌, ◌<◌, ◌≡◌, ◌≢◌, sym, ◌∙◌, Bool, some, List, [], ◌∷◌, ◌++◌, length,
  get_elem?, set, get_elem?-set_self, get_elem?-set_ne, drop, subst, drop-append_le, arith,
}
use solana_bpf_simulator.Prelude.Outcome.{ok}
use solana_bpf_simulator.Memory.{AlignedMemory, IsAlignedMemory}
use solana_bpf_simulator.InstructionExecutor.Types.{Sdk, Account}
use solana_bpf_simulator.InstructionExecutor.Vm.{Vm}
use solana_bpf_simulator.InstructionExecutor.Executor.{InstructionExecutor}
use solana_bpf_simulator.InstructionExecutor.Executor.Methods.{update_account, update_instruction}
use solana_bpf_simulator.InstructionExecutor.Executor.GetAccount.{get_account}
use solana_bpf_simulator.InstructionExecutor.View.{Entry, View, IsEntry, Represents, padded}
use solana_bpf_simulator.InstructionExecutor.View.Slots.{entry_at}
use solana_bpf_simulator.InstructionExecutor.Refinement.Update.{new_entry, update_account_lem}
use solana_bpf_simulator.InstructionExecutor.Refinement.Program.{update_instruction_lem}
use solana_bpf_simulator.InstructionExecutor.Refinement.Read.{get_account_lem}

lt_of_get_elem? {ℓ} :
    {A : Type ℓ} (xs : List A) (i : ℕ) {x : A} → get_elem? xs i ≡ some x → i < length xs
lt_of_get_elem? [] i e = cc
lt_of_get_elem? (y ∷ xs) zero e = omega arith
lt_of_get_elem? (y ∷ xs) (suc i) e = omega (arith, lt_of_get_elem? xs i e)

module _ (mem : AlignedMemory) (laws : IsAlignedMemory mem) (vm : Vm mem) (sdk : Sdk)
    (sizes : List ℕ) (self : InstructionExecutor mem vm) (v : View)
    (r : Represents mem vm sdk sizes self v) where
  -- Where the executor represents a view, an account that fits is read back with zeros behind its data
  -- and the flag given for executables, and every other account reads as before.
  pub get_account-update_account :
      (i size key : ℕ) (account : Account) (s w e : Bool)
      → get_elem? sizes i ≡ some size
      → length account.data_bytes ≤ size
      → account.owner < 256 ^ 32
      → account.lamports < 256 ^ 8
      → account.rent_epoch < 256 ^ 8
      → (self' : InstructionExecutor mem vm) × (update_account mem vm sdk i key account s w e self
          ≡ ok (tt, self'))
        × (get_account mem vm sdk self' i ≡ ok (record (padded size account) { executable = e }))
        × ((j other : ℕ)
            → get_elem? sizes j ≡ some other
            → i ≢ j
            → get_account mem vm sdk self' j ≡ get_account mem vm sdk self j)
  get_account-update_account i size key account s w e at short ho hl hr =
      (self', done.1, same, others)
    where
      done :
          (b : mem.Memory) × (update_account mem vm sdk i key account s w e self
            ≡ ok (tt, record self { buffer = b }))
          × Represents mem vm sdk sizes
              (record self { buffer = b })
              (record v { entries = set v.entries i (new_entry size key account s w e) })
      done =
          update_account_lem mem laws vm sdk sizes self v r i size key account s w e at short ho hl
            hr

      self' : InstructionExecutor mem vm
      self' = record self { buffer = done.0 }

      y : Entry
      y = new_entry size key account s w e

      old : (x : Entry) × (get_elem? v.entries i ≡ some x) × IsEntry size x
      old = entry_at sdk sizes v.entries i size r.entries at

      same : get_account mem vm sdk self' i ≡ ok y.account
      same =
          get_account_lem mem vm sdk sizes self' _ done.2 i size y at
            (get_elem?-set_self v.entries i y (lt_of_get_elem? v.entries i old.1))

      others :
          (j other : ℕ)
          → get_elem? sizes j ≡ some other
          → i ≢ j
          → get_account mem vm sdk self' j ≡ get_account mem vm sdk self j
      others j other at' ne =
          let (x, there, _) = entry_at sdk sizes v.entries j other r.entries at' in
          get_account_lem mem vm sdk sizes self' _ done.2 j other x at'
            (get_elem?-set_ne v.entries y ne ∙ there)
          ∙ sym (get_account_lem mem vm sdk sizes self v r j other x at' there)

  -- A shorter instruction after a longer one leaves the end of the longer one behind it, inside the
  -- length that the program is told.
  pub update_instruction_stale :
      (first second : List ℕ)
      → length first ≤ self.instruction_size
      → length second ≤ length first
      → (once twice : InstructionExecutor mem vm) × (update_instruction mem vm sdk first self
          ≡ ok (tt, once))
        × (update_instruction mem vm sdk second once ≡ ok (tt, twice))
        × Represents mem vm sdk sizes twice (record v {
          instruction = second ++ (drop (length second) first ++ drop (length first) v.instruction);
        })
  update_instruction_stale first second h k =
      (once, twice, one.1, two.1, subst Left (drop-append_le first _ (length second) k) two.2)
    where
      filled : View
      filled = record v { instruction = first ++ drop (length first) v.instruction }

      one :
          (b : mem.Memory) × (update_instruction mem vm sdk first self
            ≡ ok (tt, record self { buffer = b }))
          × Represents mem vm sdk sizes (record self { buffer = b }) filled
      one = update_instruction_lem mem laws vm sdk sizes self v r first h

      once : InstructionExecutor mem vm
      once = record self { buffer = one.0 }

      two :
          (b : mem.Memory) × (update_instruction mem vm sdk second once
            ≡ ok (tt, record once { buffer = b }))
          × Represents mem vm sdk sizes
              (record once { buffer = b })
              (record v { instruction = second ++ drop (length second) filled.instruction })
      two = update_instruction_lem mem laws vm sdk sizes once filled one.2 second (omega arith)

      twice : InstructionExecutor mem vm
      twice = record once { buffer = two.0 }

      Left : List ℕ → Type 0
      Left rest = Represents mem vm sdk sizes twice (record v { instruction = second ++ rest })
