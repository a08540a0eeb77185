-- ===== src/MessageExecutor/Executor.antt =====
-- src/message_executor/executor.rs: the executor, which holds the features, the sysvars and the cache of
-- programs, and hands a loaded transaction to the message processor of the Solana runtime.
pub mod Builtins
pub mod Records
use solana_bpf_simulator.Prelude.{ℕ, Bool, true, Option, none, some, List, [], ◌∷◌, if◌then◌else◌}
use solana_bpf_simulator.Prelude.Outcome.{Outcome, ok, err, panic, unwrap, ◌>>=◌}
use solana_bpf_simulator.Prelude.Method.{Method}
use solana_bpf_simulator.InstructionExecutor.Types.{Account}
use solana_bpf_simulator.MessageExecutor.Types.{Ids, Message, Error}
use solana_bpf_simulator.MessageExecutor.Loader
use solana_bpf_simulator.MessageExecutor.Loader.{AccountLoader}
use solana_bpf_simulator.MessageExecutor.Transaction.{Accounts, LoadedTransaction}
use solana_bpf_simulator.MessageExecutor.Runtime.{Runtime}
use solana_bpf_simulator.MessageExecutor.Needed.{contains}

-- An entry of `BUILTINS`, with the program that `LoadedProgram::new_builtin` makes of it.
pub record Builtin (LoadedProgram : Type 0) : Type 0 where
  pub program_id : ℕ
  pub feature_id : Option ℕ
  pub new_builtin : LoadedProgram

-- What `process_message` leaves: its result, the context, the units spent and the log.
pub record Processed (TransactionContext LogCollector : Type 0) : Type 0 where
  pub result : Outcome Error (Unit {0})
  pub context : TransactionContext
  pub units : ℕ
  pub logger : Option LogCollector

-- The rest of the Solana runtime: features, sysvars, environments, and the processing of a message.
pub record Processor (rt : Runtime) : Type 1 where
  pub SysvarCache : Type 0
  pub LogCollector : Type 0
  pub TransactionContext : Type 0
  pub default_features : rt.FeatureSet
  pub activate : rt.FeatureSet → ℕ → ℕ → rt.FeatureSet
  pub default_sysvars : SysvarCache
  pub new_log : LogCollector
  -- `LoadedPrograms::new` with these numbers and environments.
  pub new_programs : ℕ → ℕ → rt.Environment → rt.Environment → rt.LoadedPrograms
  pub create_program_runtime_environment_v1 : rt.FeatureSet → Option rt.Environment
  pub create_program_runtime_environment_v2 : rt.Environment
  pub builtins : List (Builtin rt.LoadedProgram)
  pub new_context : Accounts → TransactionContext
  -- The message, the indices of programs, the context, the log, the loaded programs, the two batches for
  -- programs that are deployed meanwhile, the features and the sysvars; the rest by default.
  pub process_message :
      Message
      → List (List ℕ)
      → TransactionContext
      → Option LogCollector
      → rt.LoadedProgramsForTxBatch
      → rt.LoadedProgramsForTxBatch
      → rt.LoadedProgramsForTxBatch
      → rt.FeatureSet
      → SysvarCache
      → Processed TransactionContext LogCollector
  -- The clock among the sysvars.
  pub Clock : Type 0
  pub deserialize_clock : List ℕ → Outcome Error Clock
  pub clock_slot : Clock → ℕ
  pub set_clock : Clock → SysvarCache → SysvarCache
  pub deconstruct_without_keys : TransactionContext → Outcome Error (List Account)

pub record ExecutionRecord : Type 0 where
  pub keys : List ℕ
  pub datas : List Account
  pub cu : ℕ

-- `HashSet::insert`
unfoldable pub insert_key : ℕ → List ℕ → List ℕ
insert_key key keys = if contains keys key then keys else key ∷ keys

module _ (ids : Ids) (rt : Runtime) (proc : Processor rt) where
  pub record MessageExecutor : Type 0 where
    pub feature_set : rt.FeatureSet
    pub sysvar_cache : proc.SysvarCache
    pub logger : Option proc.LogCollector
    pub program_owners : List ℕ
    pub builtin_programs : List ℕ
    pub loaded_programs : rt.LoadedPrograms

  unfoldable pub activate_all : List ℕ → rt.FeatureSet → rt.FeatureSet
  activate_all [] features = features
  activate_all (feature ∷ enabled) features =
      activate_all enabled (proc.activate features feature 0)

  -- `builtin.feature_id.map(|f| is_active(&f)).unwrap_or(true)`
  unfoldable pub should_apply : rt.FeatureSet → Option ℕ → Bool
  should_apply features none = true
  should_apply features (some feature) = rt.is_active features feature

  -- The loop over the builtin programs.
  unfoldable pub add_builtin_programs :
      List (Builtin rt.LoadedProgram) → MessageExecutor → MessageExecutor
  add_builtin_programs [] this = this
  add_builtin_programs (builtin ∷ builtins) this = add_builtin_programs builtins (
      if should_apply this.feature_set builtin.feature_id
      then record this {
        builtin_programs = insert_key builtin.program_id this.builtin_programs;
        loaded_programs =
            (rt.replenish builtin.program_id builtin.new_builtin this.loaded_programs).1;
      }
      else this)

  -- The executor before its loop over the builtin programs, with the first of its environments.
  unfoldable pub initial : rt.FeatureSet → rt.Environment → MessageExecutor
  initial features v1 = record {
    feature_set = features;
    sysvar_cache = proc.default_sysvars;
    logger = some proc.new_log;
    program_owners = insert_key ids.bpf_loader_deprecated (
        insert_key ids.bpf_loader
          (insert_key ids.bpf_loader_upgradeable (insert_key ids.loader_v4 [])));
    builtin_programs = [];
    loaded_programs =
        proc.new_programs rt.slots_per_epoch 1 v1 proc.create_program_runtime_environment_v2;
  }

  unfoldable pub new : List ℕ → Outcome Error MessageExecutor
  new enabled_features = do
    let features = activate_all enabled_features proc.default_features
    v1 ← unwrap (proc.create_program_runtime_environment_v1 features)
    ok (add_builtin_programs proc.builtins (initial features v1))

  -- `loader`, by `AccountLoader::from_executor`.
  unfoldable pub loader :
      {Source : Type 0}
      → Source
      → MessageExecutor
      → AccountLoader Source rt.FeatureSet rt.LoadedPrograms
  loader g this =
      Loader.new g this.loaded_programs this.feature_set this.program_owners this.builtin_programs

  unfoldable pub record_log : MessageExecutor → MessageExecutor
  record_log this = record this { logger = some proc.new_log }

  -- The log stands behind a shared reference, so that a call by `&self` changes it.
  unfoldable pub process :
      ℕ
      → Message
      → LoadedTransaction
      → rt.LoadedProgramsForTxBatch
      → Method MessageExecutor Error ExecutionRecord
  process slot msg loaded_transaction loaded_programs this =
      let batch = rt.new_batch slot (rt.environments this.loaded_programs) in
      let done =
        proc.process_message msg loaded_transaction.program_indices
          (proc.new_context loaded_transaction.accounts) this.logger loaded_programs batch batch
          this.feature_set this.sysvar_cache in
      let logged = record this { logger = done.logger } in
      elim done.result [
        | panic ↦ panic
        | err e ↦ err (e, logged)
        | ok _ ↦ elim (proc.deconstruct_without_keys done.context) [
          | panic ↦ panic
          | err e ↦ err (e, logged)
          | ok datas ↦
              ok (record { keys = msg.account_keys; datas = datas; cu = done.units }, logged)
        ]
      ]
