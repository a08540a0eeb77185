-- ===== src/Examples/Replaced.antt =====
-- examples/raw/examples/check.rs: the loop over the accounts, on slots with any bytes in them.
use solana_bpf_simulator.Prelude.{
  ℕ, zero, suc, ◌+◌, ◌≡◌, refl, sym, ap, ◌∙◌, some_inj, false, some, List, [], ◌∷◌, ◌++◌,
  append_assoc, map, length, length-append, length-take, length-drop, get_elem?, take, drop,
  take-append-drop, arith,
}
use solana_bpf_simulator.Prelude.Slices.{splice, splice_middle}
use solana_bpf_simulator.Prelude.Outcome.{ok}
use solana_bpf_simulator.Prelude.Method.{bind_ok}
use solana_bpf_simulator.Memory.{AlignedMemory, IsAlignedMemory}
use solana_bpf_simulator.InstructionExecutor.Types.{Sdk, Account}
use solana_bpf_simulator.InstructionExecutor.Layout.{slot, slot_len, length-slot}
use solana_bpf_simulator.InstructionExecutor.Vm.{Vm}
use solana_bpf_simulator.InstructionExecutor.Executor.{InstructionExecutor}
use solana_bpf_simulator.InstructionExecutor.Executor.Methods.{update_account}
use solana_bpf_simulator.InstructionExecutor.View.{slots, slots_len, entry_slot}
use solana_bpf_simulator.InstructionExecutor.Refinement.Update.{slot-padded}
use solana_bpf_simulator.InstructionExecutor.History.Shape.{slot_start, IsShaped}
use solana_bpf_simulator.InstructionExecutor.History.Writes.{
  with_bytes, as_slice-with_bytes, with_bytes-IsShaped, slot_place, update_account_writes,
}
use solana_bpf_simulator.CommandLine.{AccountMeta}
use solana_bpf_simulator.Examples.{update_accounts}
use solana_bpf_simulator.Examples.Placed.{Given, data_len, placed, Fitting, new_entry-placed}

pub slot_start_zero : (sdk : Sdk) (sizes : List ℕ) → slot_start sdk sizes 0 ≡ 0
slot_start_zero sdk [] = refl
slot_start_zero sdk (s ∷ sizes) = refl

slot_start-suc :
    (sdk : Sdk) (sizes : List ℕ) (i size : ℕ)
    → get_elem? sizes i ≡ some size
    → slot_start sdk sizes (i + 1) ≡ slot_start sdk sizes i + slot_len sdk size
slot_start-suc sdk [] i size e = cc
slot_start-suc sdk (s ∷ sizes) zero size e =
    omega (arith, slot_start_zero sdk sizes, ap (slot_len sdk) (some_inj e))
slot_start-suc sdk (s ∷ sizes) (suc i) size e =
    ap (slot_start sdk (s ∷ sizes)) {x = suc i + 1} {y = suc (i + 1)} (omega arith)
    ∙ ap (λ n. slot_len sdk s + n) (slot_start-suc sdk sizes i size e)
    ∙ omega arith

module _ (sdk : Sdk) where
  -- The slot of an account that fills its space.
  slot-placed :
      (meta : AccountMeta) (account : Account)
      → slot sdk
          (length account.data_bytes)
          meta.pubkey
          account
          meta.is_signer
          meta.is_writable
          false
        ≡ entry_slot sdk (length account.data_bytes) (placed (meta, account))
  slot-placed meta account =
      slot-padded sdk (length account.data_bytes) meta.pubkey account meta.is_signer
        meta.is_writable false (omega arith)
      ∙ ap (entry_slot sdk (length account.data_bytes)) (new_entry-placed meta account)

module _ (mem : AlignedMemory) (laws : IsAlignedMemory mem) (vm : Vm mem) (sdk : Sdk)
    (sizes : List ℕ) (instruction_size : ℕ) where
  abbrev Shaped : InstructionExecutor mem vm → Type 0
  Shaped = IsShaped mem vm sdk sizes instruction_size

  -- The loop over the accounts replaces the slots, whatever bytes are in them.
  pub update_accounts-Shaped :
      (i : ℕ) (xs : List Given) (front mid behind : List ℕ) (self : InstructionExecutor mem vm)
      → Shaped self
      → Fitting sizes i xs
      → length front ≡ 8 + slot_start sdk sizes i
      → length mid ≡ slots_len sdk (map data_len xs)
      → mem.as_slice self.buffer ≡ front ++ (mid ++ behind)
      → (b : mem.Memory) × (update_accounts mem vm sdk i xs self
          ≡ ok (tt, record self { buffer = b }))
        × Shaped (record self { buffer = b })
        × (mem.as_slice b ≡ front ++ (slots sdk (map data_len xs) (map placed xs) ++ behind))
  unfolding update_accounts
  update_accounts-Shaped i [] front [] behind self shaped fit before len bytes =
      (self.buffer, refl, shaped, bytes)
  update_accounts-Shaped i [] front (x ∷ mid) behind self shaped fit before len bytes =
      absurd (omega arith)
  update_accounts-Shaped i ((meta, account) ∷ xs) front mid behind self shaped (at, fit) before len
        bytes =
      let (b, run, kept, done) =
        update_accounts-Shaped (i + 1) xs (front ++ image) (drop (length image) mid) behind next
          next_shaped fit
          (omega (arith, length-append front image, width, slot_start-suc sdk sizes i size at))
          (omega (arith, length-drop (length image) mid, width)) next_bytes in
      (
        b,
        bind_ok
              (update_account mem vm sdk i meta.pubkey account meta.is_signer meta.is_writable
                false)
              (λ _. update_accounts mem vm sdk (i + 1) xs) self
              (update_account_writes mem laws vm sdk sizes instruction_size self shaped i size
                meta.pubkey account meta.is_signer meta.is_writable false at (omega arith))
            ∙ run,
        kept,
        done
            ∙ append_assoc front image _
            ∙ ap (λ l. front ++ l) (sym (append_assoc image _ behind))
            ∙ ap (λ v. front ++ ((v ++ slots sdk (map data_len xs) (map placed xs)) ++ behind))
                (slot-placed sdk meta account),
      )
    where
      size : ℕ
      size = length account.data_bytes

      from : ℕ
      from = 8 + slot_start sdk sizes i

      image : List ℕ
      image = slot sdk size meta.pubkey account meta.is_signer meta.is_writable false

      width : length image ≡ slot_len sdk size
      width =
          length-slot sdk size meta.pubkey account meta.is_signer meta.is_writable false
            (omega arith)

      next : InstructionExecutor mem vm
      next = with_bytes mem laws vm sdk sizes instruction_size from image self

      next_shaped : Shaped next
      next_shaped =
          with_bytes-IsShaped mem laws vm sdk sizes instruction_size self shaped from image (
            omega (
              arith,
              width,
              slot_place mem laws vm sdk sizes instruction_size self shaped i size at,
            ))

      next_bytes :
          mem.as_slice next.buffer ≡ (front ++ image) ++ (drop (length image) mid ++ behind)
      next_bytes =
          as_slice-with_bytes mem laws vm sdk sizes instruction_size self shaped from image (
            omega (
              arith,
              width,
              slot_place mem laws vm sdk sizes instruction_size self shaped i size at,
            ))
          ∙ ap (splice from image) (bytes ∙ ap (λ l. front ++ l) apart)
          ∙ splice_middle from image front (take (length image) mid)
              (drop (length image) mid ++ behind) (omega arith)
              (omega (arith, width, length-take (length image) mid))
          ∙ sym (append_assoc front image _)
        where
          apart : mid ++ behind ≡ take (length image) mid ++ (drop (length image) mid ++ behind)
          apart =
              ap (λ l. l ++ behind) (sym (take-append-drop (length image) mid))
              ∙ append_assoc (take (length image) mid) (drop (length image) mid) behind
