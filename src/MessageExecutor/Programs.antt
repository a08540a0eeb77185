-- ===== src/MessageExecutor/Programs.antt =====
-- src/message_executor/loader/program_loader.rs: the programs that messages need, from the cache of the
-- runtime or from their accounts.
pub mod Relation
pub mod Finds
pub mod Replenish
use solana_bpf_simulator.Prelude.{
  ℕ, ◌/◌, not, Option, none, some, List, [], ◌∷◌, length, ◌==◌, if◌then◌else◌,
}
use solana_bpf_simulator.Prelude.Slices.{get_from}
use solana_bpf_simulator.Prelude.Method.{pure, gets, modify, ◌>>=◌, ◌>>◌}
use solana_bpf_simulator.Words.{saturating_add}
use solana_bpf_simulator.InstructionExecutor.Types.{Account}
use solana_bpf_simulator.MessageExecutor.Types.{Ids, Message}
use solana_bpf_simulator.MessageExecutor.Slots.{WorkingSlot}
use solana_bpf_simulator.MessageExecutor.Runtime.{
  closed, failed_verification, UpgradeableLoaderState, program, program_data, other, LoaderV4State,
  Missing, Runtime,
}
use solana_bpf_simulator.MessageExecutor.Needed.{Action, get_account, add_messages, add_builtins}

pub data ProgramAccountLoadResult : Type 0 where
  account_not_found invalid_account_data invalid_v4_program : ProgramAccountLoadResult
  program_of_loader_v1_or_v2 : Account → ProgramAccountLoadResult
  program_of_loader_v3 : Account → Account → ℕ → ProgramAccountLoadResult
  program_of_loader_v4 : Account → ℕ → ProgramAccountLoadResult

module _ (rt : Runtime) where
  -- The match on the state of an account of the loader v4.
  unfoldable pub loader_v4_result : Account → Option LoaderV4State → ProgramAccountLoadResult
  loader_v4_result program_account none = invalid_v4_program
  loader_v4_result program_account (some state) =
      if not state.retracted
      then program_of_loader_v4 program_account state.slot
      else invalid_v4_program

  -- What the account that a program of the upgradeable loader names makes of it.
  unfoldable pub programdata_result :
      Account → Account → Option UpgradeableLoaderState → ProgramAccountLoadResult
  programdata_result program_account programdata_account (some (program_data slot)) =
      program_of_loader_v3 program_account programdata_account slot
  programdata_result program_account programdata_account (some (program _)) = invalid_account_data
  programdata_result program_account programdata_account (some other) = invalid_account_data
  programdata_result program_account programdata_account none = invalid_account_data

  unfoldable pub second_result : Account → Option Account → ProgramAccountLoadResult
  second_result program_account none = account_not_found
  second_result program_account (some programdata_account) =
      programdata_result program_account programdata_account
        (rt.upgradeable_state programdata_account)

module _ (ids : Ids) (rt : Runtime) (Source : Type 0)
    (g : ℕ → Source → Option Account × Source) where
  unfoldable pub upgradeable_result :
      Account → Option UpgradeableLoaderState → Action rt Source g ProgramAccountLoadResult
  upgradeable_result program_account (some (program programdata_address)) = do
    answer ← get_account rt Source g programdata_address
    pure (second_result rt program_account answer)
  upgradeable_result program_account (some (program_data _)) = pure invalid_account_data
  upgradeable_result program_account (some other) = pure invalid_account_data
  upgradeable_result program_account none = pure invalid_account_data

  -- `load_program_accounts` from the account of the program on.
  unfoldable pub program_result : Option Account → Action rt Source g ProgramAccountLoadResult
  program_result none = pure account_not_found
  program_result (some program_account) =
      if program_account.owner == ids.loader_v4
      then pure
          (loader_v4_result rt program_account (rt.loader_v4_state program_account.data_bytes))
      else if not (program_account.owner == ids.bpf_loader_upgradeable)
      then pure (program_of_loader_v1_or_v2 program_account)
      else upgradeable_result program_account (rt.upgradeable_state program_account)

  unfoldable pub load_program_accounts : ℕ → Action rt Source g ProgramAccountLoadResult
  load_program_accounts pubkey = do answer ← get_account rt Source g pubkey; program_result answer

-- `Result::unwrap_or_else`
abbrev pub unwrap_or {ℓ} : {A : Type ℓ} → Option A → A → A
unwrap_or none a = a
unwrap_or (some b) a = b

module _ (rt : Runtime) where
  -- The `match` of `load_program`, with the environments of the epoch and the features. `none` is the
  -- error that ends as a tombstone of the first runtime.
  unfoldable pub verified :
      rt.Environments → rt.FeatureSet → ℕ → ProgramAccountLoadResult → Option rt.LoadedProgram
  verified environments feature_set slot account_not_found = some (rt.new_tombstone slot closed)
  verified environments feature_set slot invalid_account_data = none
  verified environments feature_set slot (program_of_loader_v1_or_v2 program_account) =
      rt.load_program_from_bytes
        (rt.is_active feature_set rt.delay_visibility_of_program_deployment)
        program_account.data_bytes program_account.owner (length program_account.data_bytes) 0
        (rt.program_runtime_v1 environments)
  verified environments feature_set slot
        (program_of_loader_v3 program_account programdata_account at) =
      elim (get_from rt.size_of_programdata_metadata programdata_account.data_bytes) [
        | none ↦ none
        | some programdata ↦
            rt.load_program_from_bytes
              (rt.is_active feature_set rt.delay_visibility_of_program_deployment) programdata
              program_account.owner
              (saturating_add (length program_account.data_bytes)
                (length programdata_account.data_bytes))
              at (rt.program_runtime_v1 environments)
      ]
  verified environments feature_set slot (program_of_loader_v4 program_account at) = some (
      unwrap_or
        (elim (get_from rt.loader_v4_offset program_account.data_bytes) [
          | none ↦ none
          | some elf_bytes ↦
              rt.new_loader_v4 (rt.program_runtime_v2 environments) at
                (saturating_add at rt.delay_visibility_slot_offset) elf_bytes
                (length program_account.data_bytes)
        ])
        (rt.new_tombstone at (failed_verification (rt.program_runtime_v2 environments))))
  verified environments feature_set slot invalid_v4_program =
      some (rt.new_tombstone slot (failed_verification (rt.program_runtime_v2 environments)))

module _ (ids : Ids) (rt : Runtime) (Source : Type 0)
    (g : ℕ → Source → Option Account × Source) where
  unfoldable pub load_program : ℕ → ℕ → Action rt Source g rt.LoadedProgram
  load_program slot pubkey = do
    environments ← gets (λ loader.
        rt.get_environments_for_epoch loader.loaded_programs_cache (slot / rt.slots_per_epoch))
    feature_set ← gets (λ loader. loader.feature_set)
    result ← load_program_accounts ids rt Source g pubkey
    pure (
        unwrap_or (verified rt environments feature_set slot result)
          (rt.new_tombstone slot (failed_verification (rt.program_runtime_v1 environments))))

  -- The programs that the cache did not have, all of them before any is put into the cache.
  unfoldable pub load_missing :
      ℕ → Missing rt.MatchCriteria → Action rt Source g (List (ℕ × rt.LoadedProgram))
  load_missing slot [] = pure []
  load_missing slot ((key, (_, count)) ∷ missing) = do
    loaded ← load_program slot key
    rest ← load_missing slot missing
    pure ((key, rt.store_usage loaded count) ∷ rest)

  unfoldable pub replenish_loaded :
      List (ℕ × rt.LoadedProgram)
      → rt.LoadedProgramsForTxBatch
      → Action rt Source g rt.LoadedProgramsForTxBatch
  replenish_loaded [] batch = pure batch
  replenish_loaded ((key, loaded) ∷ programs) batch = do
    (entry, cache) ← gets (λ loader. rt.replenish key loaded loader.loaded_programs_cache)
    modify λ loader. record loader { loaded_programs_cache = cache }
    replenish_loaded programs (rt.replenish_batch key entry batch)

  -- `replenish_program_cache` from the list of missing programs on.
  unfoldable pub supply :
      WorkingSlot → Missing rt.MatchCriteria → Action rt Source g rt.LoadedProgramsForTxBatch
  supply s missing = do
    cache ← gets (λ loader. loader.loaded_programs_cache)
    let batch = rt.new_batch s.current_slot (rt.environments cache)
    let (left, extracted, rest) = rt.extract s (missing, batch, cache)
    modify λ loader. record loader { loaded_programs_cache = rest }
    programs ← load_missing s.current_slot left
    replenish_loaded programs extracted

  unfoldable pub replenish_program_cache :
      WorkingSlot → List Message → Action rt Source g rt.LoadedProgramsForTxBatch
  replenish_program_cache s messages = do
    needed ← add_messages rt Source g messages []
    builtins ← gets (λ loader. loader.builtin_programs)
    supply s (add_builtins rt builtins needed)
