-- ===== src/MessageExecutor/Needed.antt =====
-- src/message_executor/loader/program_loader.rs: which programs messages need, in the order of their
-- keys.
pub mod Put
pub mod Sorted
pub mod Messages
use solana_bpf_simulator.Prelude.{
  ℕ, zero, suc, Bool, true, false, Option, List, [], ◌∷◌, ltb, ◌==◌, if◌then◌else◌,
}
use solana_bpf_simulator.Prelude.Outcome.{ok_or}
use solana_bpf_simulator.Prelude.Method.{pure, gets, lift, ◌>>=◌, ◌>>◌}
use solana_bpf_simulator.InstructionExecutor.Types.{Account}
use solana_bpf_simulator.MessageExecutor.Types.{Message, Error, account_not_found}
use solana_bpf_simulator.MessageExecutor.Loader.{
  AccountLoader, Loading, get_account_with_fixed_root,
}
use solana_bpf_simulator.MessageExecutor.Runtime.{Missing, Runtime}

-- `HashSet::contains`
unfoldable pub contains : List ℕ → ℕ → Bool
contains [] key = false
contains (k ∷ keys) key = if k == key then true else contains keys key

-- The result of `binary_search_by_key`: where the key is, or where it can be put. In a list sorted by
-- distinct keys there is one such place.
pub data Place : Type 0 where
  found : ℕ → Place
  vacant : ℕ → Place

abbrev pub behind : Place → Place
behind (found i) = found (suc i)
behind (vacant i) = vacant (suc i)

module _ {V : Type 0} where
  unfoldable pub binary_search_by_key : ℕ → List (ℕ × V) → Place
  binary_search_by_key key [] = vacant 0
  binary_search_by_key key ((k, _) ∷ entries) =
      if k == key
      then found 0
      else if ltb k key
      then behind (binary_search_by_key key entries)
      else vacant 0

  -- `Vec::insert`
  unfoldable pub insert : ℕ → ℕ × V → List (ℕ × V) → List (ℕ × V)
  insert zero entry entries = entry ∷ entries
  insert (suc i) entry [] = entry ∷ []
  insert (suc i) entry (e ∷ entries) = e ∷ insert i entry entries

module _ (rt : Runtime) where
  -- `if let Err(i) = missing_programs.binary_search_by_key(..) { missing_programs.insert(i, ..) }`
  unfoldable pub insert_missing : ℕ → Missing rt.MatchCriteria → Missing rt.MatchCriteria
  insert_missing key missing = elim (binary_search_by_key key missing) [
    | found i ↦ missing
    | vacant i ↦ insert i (key, (rt.no_criteria, 0)) missing
  ]

  unfoldable pub add_builtins : List ℕ → Missing rt.MatchCriteria → Missing rt.MatchCriteria
  add_builtins [] missing = missing
  add_builtins (key ∷ keys) missing = add_builtins keys (insert_missing key missing)

module _ (rt : Runtime) (Source : Type 0) (g : ℕ → Source → Option Account × Source) where
  abbrev pub Loader : Type 0
  Loader = AccountLoader Source rt.FeatureSet rt.LoadedPrograms

  abbrev pub Action : Type 0 → Type 0
  Action = Loading Source rt.FeatureSet rt.LoadedPrograms g

  abbrev pub get_account : ℕ → Action (Option Account)
  get_account = get_account_with_fixed_root Source rt.FeatureSet rt.LoadedPrograms g

  -- The keys of one message.
  unfoldable pub add_keys : List ℕ → Missing rt.MatchCriteria → Action (Missing rt.MatchCriteria)
  add_keys [] missing = pure missing
  add_keys (key ∷ keys) missing = do
    answer ← get_account key
    acc ← lift (ok_or answer Error.account_not_found)
    owners ← gets (λ loader. loader.program_owners)
    add_keys keys (if contains owners acc.owner then insert_missing rt key missing else missing)

  unfoldable pub add_messages :
      List Message → Missing rt.MatchCriteria → Action (Missing rt.MatchCriteria)
  add_messages [] missing = pure missing
  add_messages (msg ∷ messages) missing = do
    added ← add_keys msg.account_keys missing
    add_messages messages added
