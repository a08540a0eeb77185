-- ===== src/MessageExecutor/Transaction/Keys.antt =====
-- The accounts of the keys of a message.
use solana_bpf_simulator.Prelude.{
  ℕ, ◌≡◌, refl, sym, ap, ◌∙◌, Option, none, some, List, [], ◌∷◌, ◌++◌, append_assoc, append-nil,
  map, All, Any, ◌==◌, if◌then◌else◌, Bool-cases, Option-cases, inl, inr,
}
use solana_bpf_simulator.Prelude.Post.{Post, bind-Post, imp-Post}
use solana_bpf_simulator.InstructionExecutor.Types.{Account}
use solana_bpf_simulator.MessageExecutor.Types.{Ids, Message, Error, account_not_found}
use solana_bpf_simulator.MessageExecutor.Loader.{
  AccountLoader, Answers, get_account_with_fixed_root,
}
use solana_bpf_simulator.MessageExecutor.Transaction.{
  Accounts, construct_instructions_account, required, load_key, load_keys,
}

-- A loader whose client is in a good state.
abbrev pub GoodLoader :
    {Source FeatureSet LoadedPrograms : Type 0}
    → (Source → Type 0)
    → AccountLoader Source FeatureSet LoadedPrograms
    → Type 0
GoodLoader IsGood loader = IsGood loader.source

module _ (ids : Ids) (lookup : ℕ → Option Account) where
  -- What stands for a key of the message.
  unfoldable pub key_account : Message → ℕ → Option Account
  key_account msg key =
      if key == ids.instructions_sysvar
      then some (construct_instructions_account ids msg)
      else lookup key

  -- The accounts of a list of keys, in its order.
  abbrev pub AreLoaded : Message → List ℕ → Accounts → Type 0
  AreLoaded msg keys accounts =
      (map (λ entry. entry.0) accounts ≡ keys)
      × All (λ entry. key_account msg entry.0 ≡ some entry.1) accounts

  -- What the loop over the keys makes of the accounts it began with, and why it ends early.
  abbrev pub Loads : Message → List ℕ → Accounts → Accounts → Type 0
  Loads msg keys accounts loaded =
      (added : Accounts) × (loaded ≡ accounts ++ added) × AreLoaded msg keys added

  abbrev pub Misses : Message → List ℕ → Error → Type 0
  Misses msg keys e = (e ≡ account_not_found) × Any (λ key. key_account msg key ≡ none) keys

module _ (ids : Ids) (Source FeatureSet LoadedPrograms : Type 0)
    (g : ℕ → Source → Option Account × Source) (lookup : ℕ → Option Account)
    (IsGood : Source → Type 0) (answers : Answers g lookup IsGood) where
  pub required-Post :
      (key : ℕ) (e : Error) (loader : AccountLoader Source FeatureSet LoadedPrograms)
      → IsGood loader.source
      → Post
          (GoodLoader IsGood)
          (λ account. lookup key ≡ some account)
          (λ e'. (e' ≡ e) × (lookup key ≡ none))
          (required ids Source FeatureSet LoadedPrograms g key e loader)
  unfolding Post required get_account_with_fixed_root
  required-Post key e loader good = elim (Option-cases (lookup key)) [
    | inl missing ↦
        rw (answers.answer key loader.source good, missing)
          ((refl, refl), answers.keep key loader.source good)
    | inr (account, found) ↦
        rw (answers.answer key loader.source good, found)
          (refl, answers.keep key loader.source good)
  ]

  -- The account of one key.
  load_key-Post :
      (msg : Message) (key : ℕ) (loader : AccountLoader Source FeatureSet LoadedPrograms)
      → IsGood loader.source
      → Post
          (GoodLoader IsGood)
          (λ account. key_account ids lookup msg key ≡ some account)
          (λ e. (e ≡ account_not_found) × (key_account ids lookup msg key ≡ none))
          (load_key ids Source FeatureSet LoadedPrograms g msg key loader)
  unfolding key_account load_key Post
  load_key-Post msg key loader good = elim (Bool-cases (key == ids.instructions_sysvar)) [
    | inl same ↦ rw same (refl, good)
    | inr other ↦ rw other (required-Post key account_not_found loader good)
  ]

  pub load_keys-Post :
      (msg : Message) (keys : List ℕ) (accounts : Accounts)
      (loader : AccountLoader Source FeatureSet LoadedPrograms)
      → IsGood loader.source
      → Post
          (GoodLoader IsGood)
          (Loads ids lookup msg keys accounts)
          (Misses ids lookup msg keys)
          (load_keys ids Source FeatureSet LoadedPrograms g msg keys accounts loader)
  unfolding load_keys Post
  load_keys-Post msg [] accounts loader good = (([], sym (append-nil accounts), (refl, tt)), good)
  load_keys-Post msg (key ∷ keys) accounts loader good =
      bind-Post (GoodLoader IsGood) (λ account. key_account ids lookup msg key ≡ some account)
        (λ e. (e ≡ account_not_found) × (key_account ids lookup msg key ≡ none))
        (Loads ids lookup msg (key ∷ keys) accounts) (Misses ids lookup msg (key ∷ keys))
        (load_key ids Source FeatureSet LoadedPrograms g msg key) _ loader
        (load_key-Post msg key loader good) (λ e q. (q.0, inl q.1))
        (λ account t found good'.
          imp-Post (GoodLoader IsGood) (Loads ids lookup msg keys (accounts ++ (key, account) ∷ []))
            (Loads ids lookup msg (key ∷ keys) accounts) (Misses ids lookup msg keys)
            (Misses ids lookup msg (key ∷ keys)) _
            (load_keys-Post msg keys (accounts ++ (key, account) ∷ []) t good')
            (λ loaded p. (
              (key, account) ∷ p.0,
              p.1 ∙ append_assoc accounts ((key, account) ∷ []) p.0,
              (ap (λ ks. key ∷ ks) p.2.0, (found, p.2.1)),
            ))
            (λ e q. (q.0, inr q.1)))
