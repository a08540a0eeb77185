-- ===== src/InstructionExecutor/Buffer/Slots.antt =====
-- `write_account` and `write_empty_account` write the slot that the layout describes.
use native.Mathlib.Nat.{sub-zero}
use solana_bpf_simulator.Prelude.{
  ℕ, ◌+◌, ◌-◌, ◌≤◌, ◌<◌, ◌≡◌, refl, Bool, false, Option, none, some, List, [], ◌∷◌, ◌++◌,
  append_assoc, length, replicate, lengths, arith,
}
use solana_bpf_simulator.Prelude.Bytes.{le_bytes, be_bytes}
use solana_bpf_simulator.Prelude.Outcome.{ok}
use solana_bpf_simulator.Words.{u64_mod, add64, sub64}
use solana_bpf_simulator.Memory.{AlignedMemory, IsAlignedMemory}
use solana_bpf_simulator.InstructionExecutor.Types.{Sdk, Account}
use solana_bpf_simulator.InstructionExecutor.Layout.{
  spare, slot, empty_slot, slot_len, default_account,
}
use solana_bpf_simulator.InstructionExecutor.Buffer.{
  write_account, write_empty_account, align_offset, bool_to_u8,
}
use solana_bpf_simulator.InstructionExecutor.Buffer.Writes.{
  written, next, Fits, write_all_first, write-write_all, write_step, write_all_step,
  fill_write_step,
}

-- What has been written after each of the steps.
module _ (sdk : Sdk) (size key : ℕ) (account : Account) (s w e : Bool) where
  abbrev pub upto_marker : List ℕ
  upto_marker = le_bytes 1 sdk.non_dup_marker

  abbrev pub upto_signer : List ℕ
  upto_signer = upto_marker ++ le_bytes 1 (bool_to_u8 s)

  abbrev pub upto_writable : List ℕ
  upto_writable = upto_signer ++ le_bytes 1 (bool_to_u8 w)

  abbrev pub upto_executable : List ℕ
  upto_executable = upto_writable ++ le_bytes 1 (bool_to_u8 e)

  abbrev pub upto_filler : List ℕ
  upto_filler = upto_executable ++ (0 ∷ 0 ∷ 0 ∷ 0 ∷ [])

  abbrev pub upto_key : List ℕ
  upto_key = upto_filler ++ be_bytes 32 key

  abbrev pub upto_owner : List ℕ
  upto_owner = upto_key ++ be_bytes 32 account.owner

  abbrev pub upto_lamports : List ℕ
  upto_lamports = upto_owner ++ le_bytes 8 account.lamports

  abbrev pub upto_size : List ℕ
  upto_size = upto_lamports ++ le_bytes 8 size

  abbrev pub upto_data : List ℕ
  upto_data = upto_size ++ account.data_bytes

  abbrev pub num : ℕ
  num = size - length account.data_bytes + spare sdk size

  abbrev pub upto_spare : List ℕ
  upto_spare = upto_data ++ replicate num 0

module _ (mem : AlignedMemory) (laws : IsAlignedMemory mem) (sdk : Sdk) (b : mem.Memory)
    (size key : ℕ) (account : Account) (s w e : Bool) (short : length account.data_bytes ≤ size)
    (small : slot_len sdk size < u64_mod) where
  abbrev count : ℕ
  count = num sdk size key account s w e

  -- The count that the code computes on 64 bits does not wrap.
  count_lem :
      add64
        (add64 (sub64 size (length account.data_bytes)) sdk.max_permitted_data_increase)
        (align_offset size sdk.bpf_align_of_u128)
      ≡ count
  count_lem = omega arith

  whole :
      (upto_spare sdk size key account s w e) ++ le_bytes 8 account.rent_epoch
      ≡ slot sdk size key account s w e
  unfolding slot
  whole = simp append_assoc

  -- `write_account` writes the slot, whether it appends it or overwrites what stands at `at`.
  pub write_account_lem :
      (at : Option ℕ)
      → Fits mem b at (slot_len sdk size)
      → write_account mem sdk b size at key account s w e
        ≡ ok (
          next mem b at (slot sdk size key account s w e),
          written mem b at (slot sdk size key account s w e),
        )
  unfolding write_account
  write_account_lem none h =
      rw
        (
          write-write_all mem laws b none (upto_marker sdk size key account s w e) (omega lengths),
          write_all_first mem laws b none (upto_marker sdk size key account s w e) (omega lengths),
          write_step mem laws b none (upto_marker sdk size key account s w e)
              (le_bytes 1 (bool_to_u8 s)) (omega lengths),
          write_step mem laws b none (upto_signer sdk size key account s w e)
              (le_bytes 1 (bool_to_u8 w)) (omega lengths),
          write_step mem laws b none (upto_writable sdk size key account s w e)
              (le_bytes 1 (bool_to_u8 e)) (omega lengths),
          write_all_step mem laws b none (upto_executable sdk size key account s w e)
              (0 ∷ 0 ∷ 0 ∷ 0 ∷ []) (omega lengths),
          write_all_step mem laws b none (upto_filler sdk size key account s w e) (be_bytes 32 key)
              (omega lengths),
          write_all_step mem laws b none (upto_key sdk size key account s w e)
              (be_bytes 32 account.owner) (omega lengths),
          write_step mem laws b none (upto_owner sdk size key account s w e)
              (le_bytes 8 account.lamports) (omega lengths),
          write_step mem laws b none (upto_lamports sdk size key account s w e) (le_bytes 8 size)
              (omega lengths),
          write_all_step mem laws b none (upto_size sdk size key account s w e) account.data_bytes
              (omega lengths),
          count_lem,
          fill_write_step mem laws b none (upto_data sdk size key account s w e) count 0
              (omega lengths),
          write_step mem laws b none (upto_spare sdk size key account s w e)
              (le_bytes 8 account.rent_epoch) (omega lengths),
          whole,
        )
        refl
  write_account_lem (some from) h =
      rw
        (
          write-write_all mem laws b (some from) (upto_marker sdk size key account s w e)
              (omega lengths),
          write_all_first mem laws b (some from) (upto_marker sdk size key account s w e)
              (omega lengths),
          write_step mem laws b (some from) (upto_marker sdk size key account s w e)
              (le_bytes 1 (bool_to_u8 s)) (omega lengths),
          write_step mem laws b (some from) (upto_signer sdk size key account s w e)
              (le_bytes 1 (bool_to_u8 w)) (omega lengths),
          write_step mem laws b (some from) (upto_writable sdk size key account s w e)
              (le_bytes 1 (bool_to_u8 e)) (omega lengths),
          write_all_step mem laws b (some from) (upto_executable sdk size key account s w e)
              (0 ∷ 0 ∷ 0 ∷ 0 ∷ []) (omega lengths),
          write_all_step mem laws b (some from) (upto_filler sdk size key account s w e)
              (be_bytes 32 key) (omega lengths),
          write_all_step mem laws b (some from) (upto_key sdk size key account s w e)
              (be_bytes 32 account.owner) (omega lengths),
          write_step mem laws b (some from) (upto_owner sdk size key account s w e)
              (le_bytes 8 account.lamports) (omega lengths),
          write_step mem laws b (some from) (upto_lamports sdk size key account s w e)
              (le_bytes 8 size) (omega lengths),
          write_all_step mem laws b (some from) (upto_size sdk size key account s w e)
              account.data_bytes (omega lengths),
          count_lem,
          fill_write_step mem laws b (some from) (upto_data sdk size key account s w e) count 0
              (omega lengths),
          write_step mem laws b (some from) (upto_spare sdk size key account s w e)
              (le_bytes 8 account.rent_epoch) (omega lengths),
          whole,
        )
        refl

module _ (mem : AlignedMemory) (laws : IsAlignedMemory mem) (sdk : Sdk) (b : mem.Memory) (size : ℕ)
    (small : slot_len sdk size < u64_mod) where
  empty_count :
      add64 (add64 size sdk.max_permitted_data_increase) (align_offset size sdk.bpf_align_of_u128)
      ≡ size + spare sdk size
  empty_count = omega arith

  empty_whole :
      ((upto_size sdk size 0 default_account false false false)
          ++ replicate (size + spare sdk size) 0)
        ++ le_bytes 8 0
      ≡ empty_slot sdk size
  unfolding slot empty_slot
  empty_whole = simp (append_assoc, sub-zero, empty_slot, slot)

  -- `write_empty_account` appends the slot of an empty account.
  pub write_empty_account_lem :
      Fits mem b none (slot_len sdk size)
      → write_empty_account mem sdk b size ≡ ok (written mem b none (empty_slot sdk size))
  unfolding write_empty_account
  write_empty_account_lem h =
      rw
        (
          write-write_all mem laws b none (upto_marker sdk size 0 default_account false false false)
              (omega lengths),
          write_all_first mem laws b none (upto_marker sdk size 0 default_account false false false)
              (omega lengths),
          write_step mem laws b none (upto_marker sdk size 0 default_account false false false)
              (le_bytes 1 0) (omega lengths),
          write_step mem laws b none (upto_signer sdk size 0 default_account false false false)
              (le_bytes 1 0) (omega lengths),
          write_step mem laws b none (upto_writable sdk size 0 default_account false false false)
              (le_bytes 1 0) (omega lengths),
          write_all_step mem laws b none
              (upto_executable sdk size 0 default_account false false false) (0 ∷ 0 ∷ 0 ∷ 0 ∷ [])
              (omega lengths),
          write_all_step mem laws b none (upto_filler sdk size 0 default_account false false false)
              (be_bytes 32 0) (omega lengths),
          write_all_step mem laws b none (upto_key sdk size 0 default_account false false false)
              (be_bytes 32 0) (omega lengths),
          write_step mem laws b none (upto_owner sdk size 0 default_account false false false)
              (le_bytes 8 0) (omega lengths),
          write_step mem laws b none (upto_lamports sdk size 0 default_account false false false)
              (le_bytes 8 size) (omega lengths),
          empty_count,
          fill_write_step mem laws b none (upto_size sdk size 0 default_account false false false)
              (size + spare sdk size) 0 (omega lengths),
          write_step mem laws b none
              ((upto_size sdk size 0 default_account false false false)
                ++ replicate (size + spare sdk size) 0)
              (le_bytes 8 0) (omega lengths),
          empty_whole,
        )
        refl
