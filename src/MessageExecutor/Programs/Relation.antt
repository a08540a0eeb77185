-- ===== src/MessageExecutor/Programs/Relation.antt =====
-- Which accounts make a program, as a relation.
use solana_bpf_simulator.Prelude.{ℕ, ◌≡◌, ◌≢◌, true, false, Option, none, some}
use solana_bpf_simulator.InstructionExecutor.Types.{Account}
use solana_bpf_simulator.MessageExecutor.Types.{Ids}
use solana_bpf_simulator.MessageExecutor.Runtime.{program, program_data, LoaderV4State, Runtime}
use solana_bpf_simulator.MessageExecutor.Programs.{
  ProgramAccountLoadResult, account_not_found, invalid_account_data, invalid_v4_program,
  program_of_loader_v1_or_v2, program_of_loader_v3, program_of_loader_v4,
}

module _ (ids : Ids) (rt : Runtime) (lookup : ℕ → Option Account) (key : ℕ) where
  -- The accounts of a program, by its key.
  pub data Finds : ProgramAccountLoadResult → Type 0 where
    absent : lookup key ≡ none → Finds account_not_found
    v4 :
        (account : Account) (state : LoaderV4State)
        → lookup key ≡ some account
        → account.owner ≡ ids.loader_v4
        → rt.loader_v4_state account.data_bytes ≡ some state
        → state.retracted ≡ false
        → Finds (program_of_loader_v4 account state.slot)
    v4_retracted :
        (account : Account) (state : LoaderV4State)
        → lookup key ≡ some account
        → account.owner ≡ ids.loader_v4
        → rt.loader_v4_state account.data_bytes ≡ some state
        → state.retracted ≡ true
        → Finds invalid_v4_program
    v4_unreadable :
        (account : Account)
        → lookup key ≡ some account
        → account.owner ≡ ids.loader_v4
        → rt.loader_v4_state account.data_bytes ≡ none
        → Finds invalid_v4_program
    -- Every other owner than the upgradeable loader, whatever it is.
    v1_or_v2 :
        (account : Account)
        → lookup key ≡ some account
        → account.owner ≢ ids.loader_v4
        → account.owner ≢ ids.bpf_loader_upgradeable
        → Finds (program_of_loader_v1_or_v2 account)
    v3 :
        (account programdata : Account) (address slot : ℕ)
        → lookup key ≡ some account
        → account.owner ≡ ids.bpf_loader_upgradeable
        → rt.upgradeable_state account ≡ some (program address)
        → lookup address ≡ some programdata
        → rt.upgradeable_state programdata ≡ some (program_data slot)
        → Finds (program_of_loader_v3 account programdata slot)
    v3_absent :
        (account : Account) (address : ℕ)
        → lookup key ≡ some account
        → account.owner ≡ ids.bpf_loader_upgradeable
        → rt.upgradeable_state account ≡ some (program address)
        → lookup address ≡ none
        → Finds account_not_found
    v3_no_programdata :
        (account programdata : Account) (address : ℕ)
        → lookup key ≡ some account
        → account.owner ≡ ids.bpf_loader_upgradeable
        → rt.upgradeable_state account ≡ some (program address)
        → lookup address ≡ some programdata
        → ((slot : ℕ) → rt.upgradeable_state programdata ≢ some (program_data slot))
        → Finds invalid_account_data
    v3_no_program :
        (account : Account)
        → lookup key ≡ some account
        → account.owner ≡ ids.bpf_loader_upgradeable
        → ((address : ℕ) → rt.upgradeable_state account ≢ some (program address))
        → Finds invalid_account_data
