-- ===== src/MessageExecutor/Loader.antt =====
-- src/message_executor/loader/mod.rs: `AccountLoader`, which asks a function of its client for accounts.
-- That function may keep a state of its own (`FnMut`), here of the type Source.
use solana_bpf_simulator.Prelude.{ℕ, ◌≡◌, Option, List}
use solana_bpf_simulator.Prelude.Outcome.{ok}
use solana_bpf_simulator.Prelude.Method.{Method}
use solana_bpf_simulator.InstructionExecutor.Types.{Account}
use solana_bpf_simulator.MessageExecutor.Types.{Error}

-- The fields that the loader changes, and those that it only reads. A hash set is the list of its keys,
-- in the order in which it is walked.
pub record AccountLoader (Source FeatureSet LoadedPrograms : Type 0) : Type 0 where
  pub source : Source
  pub feature_set : FeatureSet
  pub loaded_programs_cache : LoadedPrograms
  pub program_owners : List ℕ
  pub builtin_programs : List ℕ

module _ {Source FeatureSet LoadedPrograms : Type 0} where
  unfoldable pub new :
      Source
      → LoadedPrograms
      → FeatureSet
      → List ℕ
      → List ℕ
      → AccountLoader Source FeatureSet LoadedPrograms
  new g loaded_programs feature_set program_owners builtin_programs = record {
    source = g;
    feature_set = feature_set;
    loaded_programs_cache = loaded_programs;
    program_owners = program_owners;
    builtin_programs = builtin_programs;
  }

module _ (Source FeatureSet LoadedPrograms : Type 0)
    (g : ℕ → Source → Option Account × Source) where
  abbrev pub Loading : Type 0 → Type 0
  Loading = Method (AccountLoader Source FeatureSet LoadedPrograms) Error

  unfoldable pub get_account_with_fixed_root : ℕ → Loading (Option Account)
  get_account_with_fixed_root key loader =
      let (account, source) = g key loader.source in ok (account, record loader { source = source })

-- While its state is good, the client's function answers as `lookup` does, and leaves a good state.
pub record Answers {Source : Type 0} (g : ℕ → Source → Option Account × Source)
    (lookup : ℕ → Option Account) (IsGood : Source → Type 0) : Type 0 where
  pub answer : (key : ℕ) (s : Source) → IsGood s → (g key s).0 ≡ lookup key
  pub keep : (key : ℕ) (s : Source) → IsGood s → IsGood (g key s).1
