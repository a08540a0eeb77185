-- ===== src/InstructionExecutor/Layout.antt =====
-- The bytes of the input buffer, described without reference to how they are written: a count, one
-- slot for each account, the instruction behind its length, and the program id.
use solana_bpf_simulator.Prelude.{
  ℕ, ◌+◌, ◌-◌, ◌≤◌, ◌≡◌, Bool, false, List, [], ◌∷◌, ◌++◌, length, replicate, arith, lengths,
}
use solana_bpf_simulator.Prelude.Bytes.{le_bytes, be_bytes}
use solana_bpf_simulator.InstructionExecutor.Types.{Sdk, Account}
use solana_bpf_simulator.InstructionExecutor.Buffer.{align_offset, bool_to_u8}

-- `Account::default()`
abbrev pub default_account : Account
default_account = record {
  lamports = 0;
  data_bytes = [];
  owner = 0;
  executable = false;
  rent_epoch = 0;
}

module _ (sdk : Sdk) where
  -- The bytes behind the account's own space: room to grow, and the alignment.
  abbrev pub spare : ℕ → ℕ
  spare size = sdk.max_permitted_data_increase + align_offset size sdk.bpf_align_of_u128

  abbrev pub slot_len : ℕ → ℕ
  slot_len size = 96 + size + spare size

  unfoldable pub slot : ℕ → ℕ → Account → Bool → Bool → Bool → List ℕ
  slot size key account is_signer is_writable is_executable =
      le_bytes 1 sdk.non_dup_marker
      ++ (le_bytes 1 (bool_to_u8 is_signer)
          ++ (le_bytes 1 (bool_to_u8 is_writable)
              ++ (le_bytes 1 (bool_to_u8 is_executable)
                  ++ ((0 ∷ 0 ∷ 0 ∷ 0 ∷ [])
                      ++ (be_bytes 32 key
                          ++ (be_bytes 32 account.owner
                              ++ (le_bytes 8 account.lamports
                                  ++ (le_bytes 8 size
                                      ++ (account.data_bytes
                                          ++ (replicate
                                                (size - length account.data_bytes + spare size) 0
                                              ++ le_bytes 8 account.rent_epoch))))))))))

  unfoldable pub empty_slot : ℕ → List ℕ
  unfolding slot
  empty_slot size = slot size 0 default_account false false false

  pub length-slot :
      (size key : ℕ) (account : Account) (is_signer is_writable is_executable : Bool)
      → length account.data_bytes ≤ size
      → length (slot size key account is_signer is_writable is_executable) ≡ slot_len size
  unfolding slot
  length-slot size key account s w e h = omega lengths

  pub length-empty_slot : (size : ℕ) → length (empty_slot size) ≡ slot_len size
  unfolding empty_slot
  length-empty_slot size = length-slot size 0 default_account false false false (omega arith)
