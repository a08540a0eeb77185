-- ===== src/MessageExecutor/Runtime.antt =====
-- The parts of the Solana runtime that the message executor calls: the cache of loaded programs, the
-- loaders, and the states that accounts of programs hold.
use solana_bpf_simulator.Prelude.{ℕ, Bool, Option, List}
use solana_bpf_simulator.InstructionExecutor.Types.{Account}
use solana_bpf_simulator.MessageExecutor.Slots.{WorkingSlot}

-- `LoadedProgramType`, as far as tombstones have it.
pub data LoadedProgramType (Environment : Type 0) : Type 0 where
  closed : LoadedProgramType Environment
  failed_verification : Environment → LoadedProgramType Environment

-- `UpgradeableLoaderState`, as far as it is read, and `LoaderV4State`.
pub data UpgradeableLoaderState : Type 0 where
  program : ℕ → UpgradeableLoaderState
  program_data : ℕ → UpgradeableLoaderState
  other : UpgradeableLoaderState

pub record LoaderV4State : Type 0 where
  pub slot : ℕ
  pub retracted : Bool

abbrev pub Missing : Type 0 → Type 0
Missing MatchCriteria = List (ℕ × (MatchCriteria × ℕ))

-- The program cache, the loaders and the states of accounts of the Solana runtime.
pub record Runtime : Type 1 where
  pub FeatureSet : Type 0
  pub MatchCriteria : Type 0
  pub Environment : Type 0
  pub Environments : Type 0
  pub LoadedProgram : Type 0
  pub LoadedPrograms : Type 0
  pub LoadedProgramsForTxBatch : Type 0
  pub slots_per_epoch : ℕ
  pub delay_visibility_slot_offset : ℕ
  pub delay_visibility_of_program_deployment : ℕ
  pub is_active : FeatureSet → ℕ → Bool
  pub no_criteria : MatchCriteria
  pub program_runtime_v1 : Environments → Environment
  pub program_runtime_v2 : Environments → Environment
  pub environments : LoadedPrograms → Environments
  pub get_environments_for_epoch : LoadedPrograms → ℕ → Environments
  pub new_batch : ℕ → Environments → LoadedProgramsForTxBatch
  -- `extract` takes what it finds off the missing programs and adds it to the batch.
  pub extract :
      WorkingSlot
      → Missing MatchCriteria × LoadedProgramsForTxBatch × LoadedPrograms
      → Missing MatchCriteria × LoadedProgramsForTxBatch × LoadedPrograms
  -- `replenish` of the cache, with the entry that it returns, and of the batch.
  pub replenish : ℕ → LoadedProgram → LoadedPrograms → LoadedProgram × LoadedPrograms
  pub replenish_batch : ℕ → LoadedProgram → LoadedProgramsForTxBatch → LoadedProgramsForTxBatch
  pub new_tombstone : ℕ → LoadedProgramType Environment → LoadedProgram
  -- `load_program_from_bytes`: delayed visibility, data, owner, size of the account, slot, environment.
  -- An error of it is dropped by the code that calls it.
  pub load_program_from_bytes : Bool → List ℕ → ℕ → ℕ → ℕ → Environment → Option LoadedProgram
  -- `LoadedProgram::new` for the loader v4: environment, slots, data, size of the account.
  pub new_loader_v4 : Environment → ℕ → ℕ → List ℕ → ℕ → Option LoadedProgram
  pub store_usage : LoadedProgram → ℕ → LoadedProgram
  pub loader_v4_state : List ℕ → Option LoaderV4State
  pub loader_v4_offset : ℕ
  pub upgradeable_state : Account → Option UpgradeableLoaderState
  pub size_of_programdata_metadata : ℕ
