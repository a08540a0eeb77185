-- ===== src/MessageExecutor/Tests.antt =====
-- A small runtime, runs of the message executor on it, and the theorems at inputs that meet their
-- hypotheses.
use solana_bpf_simulator.Prelude.{
  ℕ, suc, sym, ap, ◌∙◌, map, length, length-map, ◌≡◌, ◌↔◌, ◌⊎◌, refl, true, Option, none, some, inl,
  inr, List, [], ◌∷◌, Any, ◌==◌, if◌then◌else◌, arith,
}
use solana_bpf_simulator.Prelude.Outcome.{Outcome, ok, err, panic}
use solana_bpf_simulator.Prelude.Slices.{get_from}
use solana_bpf_simulator.Prelude.Post.{Post}
use solana_bpf_simulator.InstructionExecutor.Types.{Account}
use solana_bpf_simulator.InstructionExecutor.Layout.{default_account}
use solana_bpf_simulator.MessageExecutor.Types.{Ids, Message, Error}
use solana_bpf_simulator.MessageExecutor.Loader.{
  AccountLoader, Answers, get_account_with_fixed_root,
}
use solana_bpf_simulator.MessageExecutor.Transaction.{
  LoadedTransaction, construct_instructions_account, required, load_key, load_keys, position,
  owner_index, owner_chain, program_loop, load_transaction_accounts,
}
use solana_bpf_simulator.MessageExecutor.Transaction.Keys.{GoodLoader, key_account}
use solana_bpf_simulator.MessageExecutor.Transaction.Loads.{
  IsLoaded, FailsToLoad, load_transaction_accounts-Post,
}
use solana_bpf_simulator.MessageExecutor.Slots.{
  WorkingSlot, ancestor, equal, descendant, relationship, working_slot,
}
use solana_bpf_simulator.MessageExecutor.Slots.Order.{relationship_iff}
use solana_bpf_simulator.MessageExecutor.Runtime.{Missing, Runtime}
use solana_bpf_simulator.MessageExecutor.Needed.{contains, add_builtins}
use solana_bpf_simulator.MessageExecutor.Needed.Sorted.{add_builtins_order}
use solana_bpf_simulator.MessageExecutor.Programs.{load_program, replenish_program_cache}
use solana_bpf_simulator.MessageExecutor.Programs.Finds.{
  Same, Never, IsProgramOf, load_program-Post,
}
use solana_bpf_simulator.MessageExecutor.Programs.Replenish.{
  Replenishes, replenish_program_cache-Replenishes,
}
use solana_bpf_simulator.MessageExecutor.Executor
use solana_bpf_simulator.MessageExecutor.Executor.{Processor, MessageExecutor}
use solana_bpf_simulator.MessageExecutor.Executor.Records.{KeepsAccounts, Records, process-Records}
use solana_bpf_simulator.MessageExecutor.Transaction.Owners.{native_owner, owned}
use solana_bpf_simulator.MessageExecutor.Executor.Builtins.{
  FeatureLaws, is_builtin, new-builtin_programs,
}

abbrev pub small_ids : Ids
small_ids = record {
  native_loader = 1;
  sysvar = 2;
  instructions_sysvar = 3;
  loader_v4 = 4;
  bpf_loader_upgradeable = 5;
  bpf_loader = 6;
  bpf_loader_deprecated = 7;
}

-- Programs are byte strings; the cache has nothing yet, and takes every program as it is.
abbrev pub small_runtime : Runtime
small_runtime = record {
  FeatureSet = List ℕ;
  MatchCriteria = Unit {0};
  Environment = Unit {0};
  Environments = Unit {0};
  LoadedProgram = List ℕ;
  LoadedPrograms = List (ℕ × List ℕ);
  LoadedProgramsForTxBatch = List (ℕ × List ℕ);
  slots_per_epoch = 32;
  delay_visibility_slot_offset = 1;
  delay_visibility_of_program_deployment = 90;
  is_active = contains;
  no_criteria = tt;
  program_runtime_v1 = λ environments. tt;
  program_runtime_v2 = λ environments. tt;
  environments = λ cache. tt;
  get_environments_for_epoch = λ cache epoch. tt;
  new_batch = λ slot environments. [];
  extract = λ slot all. all;
  replenish = λ key loaded cache. (loaded, (key, loaded) ∷ cache);
  replenish_batch = λ key loaded batch. (key, loaded) ∷ batch;
  new_tombstone = λ slot kind. [];
  load_program_from_bytes = λ delayed bytes owner size slot environment. some bytes;
  new_loader_v4 = λ environment slot from bytes size. some bytes;
  store_usage = λ loaded count. loaded;
  loader_v4_state = λ bytes. none;
  loader_v4_offset = 2;
  upgradeable_state = λ account. none;
  size_of_programdata_metadata = 2;
}

abbrev pub account_of : ℕ → List ℕ → Account
account_of owner bytes = record default_account { data_bytes = bytes; owner = owner }

-- A user, a program, and its loader, which is a builtin program.
abbrev known : ℕ → Option Account
known key =
    if key == 10
    then some (account_of 0 (1 ∷ []))
    else if key == 11
    then some (account_of 6 (127 ∷ 69 ∷ []))
    else if key == 6
    then some (account_of 1 [])
    else none

-- A client that counts the calls.
abbrev counting : ℕ → ℕ → Option Account × ℕ
counting key calls = (known key, suc calls)

abbrev Anything : ℕ → Type 0
Anything calls = Unit {0}

counting-Answers : Answers counting known Anything
counting-Answers = record { answer = λ key calls good. refl; keep = λ key calls good. tt }

abbrev pub small_message : Message
small_message = record {
  account_keys = 10 ∷ 11 ∷ 3 ∷ [];
  program_id_indices = 1 ∷ [];
  instructions_data = 9 ∷ [];
}

abbrev small_loader : AccountLoader ℕ (List ℕ) (List (ℕ × List ℕ))
small_loader = record {
  source = 0;
  feature_set = [];
  loaded_programs_cache = [];
  program_owners = 6 ∷ [];
  builtin_programs = 6 ∷ [];
}

load_transaction_accounts-Post_example :
    Post
      (GoodLoader Anything)
      (IsLoaded small_ids known small_message)
      (FailsToLoad small_ids known small_message)
      (load_transaction_accounts small_ids ℕ
        (List ℕ)
        (List (ℕ × List ℕ))
        counting
        small_message
        small_loader)
load_transaction_accounts-Post_example =
    load_transaction_accounts-Post small_ids ℕ (List ℕ) (List (ℕ × List ℕ)) counting known Anything
      counting-Answers small_message small_loader tt (omega arith, tt) (omega arith)

load_program-Post_example :
    Post
      (Same small_ids small_runtime ℕ counting known Anything counting-Answers small_loader)
      (IsProgramOf small_ids small_runtime ℕ counting known Anything counting-Answers small_loader 5
        11)
      Never
      (load_program small_ids small_runtime ℕ counting 5 11 small_loader)
load_program-Post_example =
    load_program-Post small_ids small_runtime ℕ counting known Anything counting-Answers
      small_loader 5 11 small_loader (tt, refl)

replenish_program_cache-Replenishes_example :
    Replenishes small_ids small_runtime ℕ counting known Anything counting-Answers
      (working_slot 32 5)
      (small_message ∷ [])
      small_loader
      (replenish_program_cache small_ids small_runtime ℕ counting
        (working_slot 32 5)
        (small_message ∷ [])
        small_loader)
replenish_program_cache-Replenishes_example =
    replenish_program_cache-Replenishes small_ids small_runtime ℕ counting known Anything
      counting-Answers (working_slot 32 5) (small_message ∷ []) small_loader tt

abbrev no_missing : Missing (Unit {0})
no_missing = []

add_builtins_order_example :
    add_builtins small_runtime (7 ∷ 6 ∷ []) no_missing
    ≡ add_builtins small_runtime (6 ∷ 7 ∷ []) no_missing
add_builtins_order_example =
    add_builtins_order small_runtime (7 ∷ 6 ∷ []) (6 ∷ 7 ∷ []) no_missing
      (record { sorted = tt; plain = tt }) (λ j. (turned 7 6 j, turned 6 7 j))
  where
    turned : (a b j : ℕ) → Any (λ key. key ≡ j) (a ∷ b ∷ []) → Any (λ key. key ≡ j) (b ∷ a ∷ [])
    turned a b j (inl first) = inr (inl first)
    turned a b j (inr (inl second)) = inl second
    turned a b j (inr (inr never)) = absurd never

relationship_iff_example :
    ((relationship 3 4 ≡ ancestor) ↔ (WorkingSlot.is_ancestor (working_slot 32 4) 3 ≡ true))
    × ((relationship 3 4 ≡ descendant) ↔ (WorkingSlot.is_ancestor (working_slot 32 3) 4 ≡ true))
    × ((relationship 3 4 ≡ equal) ↔ (◌≡◌ {A = ℕ} 3 4))
relationship_iff_example = relationship_iff 32 3 4

-- A processor that runs nothing, on a runtime of which one builtin program waits for the feature 40.
abbrev pub small_processor : Processor small_runtime
small_processor = record {
  SysvarCache = Unit {0};
  LogCollector = Unit {0};
  TransactionContext = List (ℕ × Account);
  default_features = [];
  activate = λ features feature slot. feature ∷ features;
  default_sysvars = tt;
  new_log = tt;
  new_programs = λ slots epochs v1 v2. [];
  create_program_runtime_environment_v1 = λ features. some tt;
  create_program_runtime_environment_v2 = tt;
  builtins =
      record { program_id = 6; feature_id = none; new_builtin = [] }
      ∷ record { program_id = 4; feature_id = some 40; new_builtin = [] }
      ∷ [];
  new_context = λ accounts. accounts;
  process_message = λ msg indices context log loaded p1 p2 features sysvars. record {
    result = ok tt;
    context = context;
    units = 0;
    logger = log;
  };
  Clock = ℕ;
  deserialize_clock = λ bytes. ok 5;
  clock_slot = λ clock. clock;
  set_clock = λ clock sysvars. sysvars;
  deconstruct_without_keys = λ context. ok (map (λ entry. entry.1) context);
}

small-FeatureLaws : FeatureLaws small_runtime small_processor
unfolding contains
small-FeatureLaws = record { none_active = λ key. refl; active = λ features feature slot key. refl }

new-builtin_programs_example :
    ((small_processor.create_program_runtime_environment_v1
          (Executor.activate_all small_ids small_runtime small_processor (40 ∷ []) [])
        ≡ none)
      × (Executor.new small_ids small_runtime small_processor (40 ∷ []) ≡ panic))
    ⊎ ((this : MessageExecutor small_ids small_runtime small_processor) × (Executor.new small_ids
            small_runtime small_processor
            (40 ∷ [])
          ≡ ok this)
        × ((key : ℕ)
            → contains this.builtin_programs key
              ≡ is_builtin (40 ∷ []) small_processor.builtins key)
        × ((feature : ℕ) → contains this.feature_set feature ≡ contains (40 ∷ []) feature))
new-builtin_programs_example =
    new-builtin_programs small_ids small_runtime small_processor small-FeatureLaws (40 ∷ [])

-- What is loaded: the program's loader is put behind the keys.
abbrev small_loaded : LoadedTransaction
small_loaded = record {
  accounts =
      (10, account_of 0 (1 ∷ []))
      ∷ (11, account_of 6 (127 ∷ 69 ∷ []))
      ∷ (3, account_of 2 (9 ∷ []))
      ∷ (6, account_of 1 [])
      ∷ [];
  program_indices = (3 ∷ 1 ∷ []) ∷ [];
}

loads_chain :
    load_transaction_accounts small_ids ℕ
      (List ℕ)
      (List (ℕ × List ℕ))
      counting
      small_message
      small_loader
    ≡ ok (small_loaded, record small_loader { source = 3 })
unfolding load_transaction_accounts load_keys load_key required get_account_with_fixed_root
    program_loop owner_chain get_from owner_index position construct_instructions_account
loads_chain = refl

small-IsLoaded : IsLoaded small_ids known small_message small_loaded
unfolding key_account construct_instructions_account
small-IsLoaded = record {
  front =
      (10, account_of 0 (1 ∷ []))
      ∷ (11, account_of 6 (127 ∷ 69 ∷ []))
      ∷ (3, account_of 2 (9 ∷ []))
      ∷ [];
  owners = (6, account_of 1 []) ∷ [];
  parts = refl;
  keys = (refl, (refl, (refl, (refl, tt))));
  found = (refl, tt);
  chains = (
    owned 1 3 11 (account_of 6 (127 ∷ 69 ∷ [])) (account_of 1 []) (3 ∷ []) (3 ∷ 1 ∷ []) refl
        (λ same. omega arith) (λ same. omega arith) refl
        (native_owner 3 6 (account_of 1 []) refl (λ same. omega arith) refl) refl,
    omega arith,
    tt,
  );
}

small-KeepsAccounts : KeepsAccounts small_runtime small_processor
small-KeepsAccounts = record {
  deconstructs = λ msg indices accounts log loaded p1 p2 features sysvars datas same.
      ap (λ (o : Outcome Error (List Account)). elim o [ ok d ↦ length d | err _ ↦ 0 | panic ↦ 0 ])
        (sym same)
      ∙ length-map accounts (λ entry. entry.1);
}

abbrev small_executor : MessageExecutor small_ids small_runtime small_processor
small_executor = record {
  feature_set = [];
  sysvar_cache = tt;
  logger = some tt;
  program_owners = 6 ∷ [];
  builtin_programs = 6 ∷ [];
  loaded_programs = [];
}

process-Records_example :
    Records small_ids small_runtime small_processor small-KeepsAccounts known small_message
      small_loaded 5 [] small_executor
      (Executor.process small_ids small_runtime small_processor 5 small_message small_loaded []
        small_executor)
process-Records_example =
    process-Records small_ids small_runtime small_processor small-KeepsAccounts known small_message
      small_loaded 5 [] small_executor small-IsLoaded
