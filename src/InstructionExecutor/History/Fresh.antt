-- ===== src/InstructionExecutor/History/Fresh.antt =====
-- Reading back what an update writes, after any calls and runs.
use solana_bpf_simulator.Prelude.{
  ℕ, ◌+◌, ◌^◌, ◌≤◌, ◌<◌, ◌≡◌, ◌≢◌, ap, ◌∙◌, inl, inr, Bool, some, List, length, get_elem?, take,
  length-take, arith, lengths,
}
use solana_bpf_simulator.Prelude.Slices.{cut, splice, cut-splice_before, cut-splice_behind}
use solana_bpf_simulator.Prelude.Outcome.{ok}
use solana_bpf_simulator.Memory.{AlignedMemory, IsAlignedMemory}
use solana_bpf_simulator.InstructionExecutor.Types.{Sdk, Account}
use solana_bpf_simulator.InstructionExecutor.Layout.{slot, slot_len, length-slot}
use solana_bpf_simulator.InstructionExecutor.Vm.{Vm}
use solana_bpf_simulator.InstructionExecutor.Executor.{InstructionExecutor}
use solana_bpf_simulator.InstructionExecutor.Executor.Methods.{update_account}
use solana_bpf_simulator.InstructionExecutor.Executor.GetAccount.{get_account}
use solana_bpf_simulator.InstructionExecutor.View.{Entry, IsEntry, padded, buffer_len}
use solana_bpf_simulator.InstructionExecutor.Refinement.Update.{new_entry, slot-padded}
use solana_bpf_simulator.InstructionExecutor.Refinement.Read.{read_account-slot}
use solana_bpf_simulator.InstructionExecutor.History.{Reaches}
use solana_bpf_simulator.InstructionExecutor.History.Shape.{
  slot_start, offsets-slot_start, slots_apart, IsShaped,
}
use solana_bpf_simulator.InstructionExecutor.History.Writes.{
  with_bytes, as_slice-with_bytes, slot_place, update_account_writes,
}
use solana_bpf_simulator.InstructionExecutor.History.Ends.{IsTame}
use solana_bpf_simulator.InstructionExecutor.History.Reach.{Reaches-IsShaped}

module _ (mem : AlignedMemory) (laws : IsAlignedMemory mem) (vm : Vm mem) (sdk : Sdk) where
  -- The bytes of slot `j`.
  abbrev pub slot_bytes : List ℕ → InstructionExecutor mem vm → ℕ → ℕ → List ℕ
  slot_bytes sizes self j size =
      cut (8 + slot_start sdk sizes j) (slot_len sdk size) (mem.as_slice self.buffer)

  module _ (sizes : List ℕ) (instruction_size : ℕ) (self : InstructionExecutor mem vm)
      (shaped : IsShaped mem vm sdk sizes instruction_size self) (i size key : ℕ)
      (account : Account) (s w e : Bool) (at : get_elem? sizes i ≡ some size)
      (short : length account.data_bytes ≤ size) (owner : account.owner < 256 ^ 32)
      (lamports : account.lamports < 256 ^ 8) (rent_epoch : account.rent_epoch < 256 ^ 8) where
    abbrev from : ℕ
    from = 8 + slot_start sdk sizes i

    abbrev image : List ℕ
    image = slot sdk size key account s w e

    abbrev pub refreshed : InstructionExecutor mem vm
    refreshed = with_bytes mem laws vm sdk sizes instruction_size from image self

    y : Entry
    y = new_entry size key account s w e

    width : length image ≡ slot_len sdk size
    width = length-slot sdk size key account s w e short

    place : from + length image ≤ buffer_len sdk sizes instruction_size
    place =
        omega
          (arith, width, slot_place mem laws vm sdk sizes instruction_size self shaped i size at)

    bytes : mem.as_slice refreshed.buffer ≡ splice from image (mem.as_slice self.buffer)
    bytes = as_slice-with_bytes mem laws vm sdk sizes instruction_size self shaped from image place

    pub refreshed-get_account :
        get_account mem vm sdk refreshed i ≡ ok (record (padded size account) { executable = e })
    unfolding get_account splice y
    refreshed-get_account =
        rw
          (
            shaped.offsets,
            offsets-slot_start sdk sizes i size 8 at,
            bytes,
            slot-padded sdk size key account s w e short,
          )
          (read_account-slot sdk size y filled (take from (mem.as_slice self.buffer)) _
            (omega
              (lengths, length-take from (mem.as_slice self.buffer), width, place, shaped.small))
            from (omega (arith, length-take from (mem.as_slice self.buffer), place, shaped.filled)))
      where
        filled : IsEntry size y
        filled = record {
          filled = omega lengths;
          owner = owner;
          lamports = lamports;
          rent_epoch = rent_epoch;
        }

    pub refreshed-slot_bytes :
        (j other : ℕ)
        → get_elem? sizes j ≡ some other
        → i ≢ j
        → slot_bytes sizes refreshed j other ≡ slot_bytes sizes self j other
    refreshed-slot_bytes j other at' ne =
        ap (cut (8 + slot_start sdk sizes j) (slot_len sdk other)) bytes
        ∙ elim (slots_apart sdk sizes i j size other at at' ne) [
          | inl h ↦
              cut-splice_behind _ _ from image _ (omega (arith, width))
                (omega (arith, place, shaped.filled))
          | inr h ↦
              cut-splice_before _ _ from image _ (omega arith) (omega (arith, place, shaped.filled))
        ]

module _ (mem : AlignedMemory) (laws : IsAlignedMemory mem) (vm : Vm mem) (tame : IsTame vm)
    (sdk : Sdk) (sizes : List ℕ) (instruction_size : ℕ) where
  -- Where the machine's calls return and runs keep the input's length, take an executor that calls
  -- make, whether they return or fail, of one whose buffer and offsets are those of `new`. An account
  -- that fits, its owner, lamports and rent epoch in the range of their types, can be updated: it is
  -- read back with zeros behind its data and the flag given for executables, and the slots of the
  -- other accounts keep their bytes.
  pub get_account-Reaches :
      {start self : InstructionExecutor mem vm} (i size key : ℕ) (account : Account) (s w e : Bool)
      → IsShaped mem vm sdk sizes instruction_size start
      → Reaches mem vm sdk start self
      → get_elem? sizes i ≡ some size
      → length account.data_bytes ≤ size
      → account.owner < 256 ^ 32
      → account.lamports < 256 ^ 8
      → account.rent_epoch < 256 ^ 8
      → (next : InstructionExecutor mem vm) × (update_account mem vm sdk i key account s w e self
          ≡ ok (tt, next))
        × (get_account mem vm sdk next i ≡ ok (record (padded size account) { executable = e }))
        × ((j other : ℕ)
            → get_elem? sizes j ≡ some other
            → i ≢ j
            → slot_bytes mem laws vm sdk sizes next j other
              ≡ slot_bytes mem laws vm sdk sizes self j other)
  get_account-Reaches {self = self} i size key account s w e shaped reached at short ho hl hr = (
    refreshed mem laws vm sdk sizes instruction_size self now i size key account s w e at short ho
        hl hr,
    update_account_writes mem laws vm sdk sizes instruction_size self now i size key account s w e
        at short,
    refreshed-get_account mem laws vm sdk sizes instruction_size self now i size key account s w e
        at short ho hl hr,
    refreshed-slot_bytes mem laws vm sdk sizes instruction_size self now i size key account s w e at
        short ho hl hr,
  )
    where
      now : IsShaped mem vm sdk sizes instruction_size self
      now = Reaches-IsShaped mem laws vm tame sdk sizes instruction_size shaped reached
