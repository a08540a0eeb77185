-- ===== src/MessageExecutor/Transaction.antt =====
-- src/message_executor/loader/transaction_loader.rs: the accounts of a transaction, and for each of its
-- instructions the indices of the program and of the programs that own it.
pub mod Keys
pub mod Owners
pub mod Extends
pub mod OwnerIndex
pub mod Chains
pub mod Loads
use solana_bpf_simulator.Prelude.{
  ℕ, zero, suc, ◌+◌, ◌%◌, ◌^◌, Option, none, some, List, [], ◌∷◌, ◌++◌, length, get_elem?, ◌==◌,
  if◌then◌else◌,
}
use solana_bpf_simulator.Prelude.Slices.{get_from}
use solana_bpf_simulator.Prelude.Outcome.{ok_or}
use solana_bpf_simulator.Prelude.Method.{pure, throw, lift, ◌>>=◌}
use solana_bpf_simulator.Words.{saturating_add}
use solana_bpf_simulator.InstructionExecutor.Types.{Account}
use solana_bpf_simulator.InstructionExecutor.Layout.{default_account}
use solana_bpf_simulator.MessageExecutor.Types.{
  Ids, Message, Error, account_not_found, program_account_not_found, call_chain_too_deep,
}
use solana_bpf_simulator.MessageExecutor.Loader.{Loading, get_account_with_fixed_root}

abbrev pub Accounts : Type 0
Accounts = List (ℕ × Account)

-- `LoadedTransaction`, without the rent of 0 and its empty list of debits.
pub record LoadedTransaction : Type 0 where
  pub accounts : Accounts
  pub program_indices : List (List ℕ)

-- `.iter().position(|(key, _)| key == owner_id)`
unfoldable pub position : ℕ → Accounts → Option ℕ
position owner [] = none
position owner ((key, _) ∷ accounts) =
    if key == owner
    then some 0
    else elim (position owner accounts) [ none ↦ none | some i ↦ some (suc i) ]

module _ (ids : Ids) where
  unfoldable pub construct_instructions_account : Message → Account
  construct_instructions_account msg = record default_account {
    data_bytes = msg.instructions_data;
    owner = ids.sysvar;
  }

  module _ (Source FeatureSet LoadedPrograms : Type 0)
      (g : ℕ → Source → Option Account × Source) where
    abbrev pub Action : Type 0 → Type 0
    Action = Loading Source FeatureSet LoadedPrograms g

    -- `self.get_account_with_fixed_root(&key)?.ok_or(e)?`
    unfoldable pub required : ℕ → Error → Action Account
    required key e = do
      found ← get_account_with_fixed_root Source FeatureSet LoadedPrograms g key
      lift (ok_or found e)

    -- The body of the loop over the keys: the account that is pushed.
    unfoldable pub load_key : Message → ℕ → Action Account
    load_key msg key =
        if key == ids.instructions_sysvar
        then pure (construct_instructions_account msg)
        else required key account_not_found

    -- The loop over the keys of the message.
    unfoldable pub load_keys : Message → List ℕ → Accounts → Action Accounts
    load_keys msg [] accounts = pure accounts
    load_keys msg (key ∷ keys) accounts = do
      account ← load_key msg key
      load_keys msg keys (accounts ++ (key, account) ∷ [])

    -- The `match` that finds the owner among the accounts added for programs, or adds it.
    unfoldable pub owner_index : ℕ → Accounts → Accounts → ℕ → Action (Accounts × ℕ)
    owner_index start accounts builtins owner = elim (position owner builtins) [
      | some i ↦ pure (accounts, saturating_add start i)
      | none ↦ do
        account ← required owner program_account_not_found
        pure (accounts ++ (owner, account) ∷ [], length accounts)
    ]

    -- The inner loop, for as many rounds as are left.
    unfoldable pub owner_chain : ℕ → ℕ → Accounts → ℕ → List ℕ → Action (Accounts × List ℕ)
    owner_chain start zero accounts program_index indices = throw call_chain_too_deep
    owner_chain start (suc rounds) accounts program_index indices = do
      (program_id, program) ←
          lift (ok_or (get_elem? accounts program_index) program_account_not_found)
      if program_id == ids.native_loader then pure (accounts, indices) else do
        let pushed = (program_index % 2 ^ 16) ∷ indices
        if program.owner == ids.native_loader then pure (accounts, pushed) else do
          builtins ← lift (ok_or (get_from start accounts) program_account_not_found)
          (extended, owner_at) ← owner_index start accounts builtins program.owner
          owner_chain start rounds extended owner_at pushed

    -- The outer loop.
    unfoldable pub program_loop :
        ℕ → List ℕ → Accounts → List (List ℕ) → Action (Accounts × List (List ℕ))
    program_loop start [] accounts program_indices = pure (accounts, program_indices)
    program_loop start (index ∷ rest) accounts program_indices = do
      (extended, indices) ← owner_chain start 5 accounts index []
      program_loop start rest extended (program_indices ++ indices ∷ [])

    unfoldable pub load_transaction_accounts : Message → Action LoadedTransaction
    load_transaction_accounts msg = do
      accounts ← load_keys msg msg.account_keys []
      (extended, indices) ← program_loop (length accounts) msg.program_id_indices accounts []
      pure (record { accounts = extended; program_indices = indices })
