-- ===== src/MessageExecutor/Transaction/OwnerIndex.antt =====
-- The index of an owner in the accounts, which grow by it where it is not there yet.
use solana_bpf_simulator.Prelude.{
  ℕ, ◌+◌, ◌≤◌, ◌<◌, ◌≡◌, refl, sym, ◌∙◌, Option, none, some, [], ◌∷◌, append-nil, length, get_elem?,
  drop, Option-cases, inl, inr, arith,
}
use solana_bpf_simulator.Prelude.Post.{Post, bind-Post}
use solana_bpf_simulator.Words.{u64_mod, saturating_add}
use solana_bpf_simulator.InstructionExecutor.Types.{Account}
use solana_bpf_simulator.MessageExecutor.Types.{Ids, program_account_not_found}
use solana_bpf_simulator.MessageExecutor.Loader.{AccountLoader, Answers}
use solana_bpf_simulator.MessageExecutor.Transaction.{Accounts, position, required, owner_index}
use solana_bpf_simulator.MessageExecutor.Transaction.Keys.{GoodLoader, required-Post}
use solana_bpf_simulator.MessageExecutor.Transaction.Owners.{
  get_elem?-append_last, get_elem?-drop, get_elem?-lt, position-get_elem?,
}
use solana_bpf_simulator.MessageExecutor.Transaction.Extends.{
  All-get_elem?, AreFound, AreFound-append, Extends,
}

module _ (ids : Ids) (Source FeatureSet LoadedPrograms : Type 0)
    (g : ℕ → Source → Option Account × Source) (lookup : ℕ → Option Account)
    (IsGood : Source → Type 0) (answers : Answers g lookup IsGood) (start : ℕ) where
  -- The owner is in the accounts that come back, at the index that comes back.
  abbrev pub OwnerAt : Accounts → ℕ → Account → Accounts × ℕ → Type 0
  OwnerAt accounts owner account (extended, j) =
      Extends lookup start accounts 1 extended × (get_elem? extended j ≡ some (owner, account))

  pub owner_index-Post :
      (accounts : Accounts) (owner : ℕ) (loader : AccountLoader Source FeatureSet LoadedPrograms)
      → IsGood loader.source
      → start ≤ length accounts
      → length accounts < u64_mod
      → AreFound lookup start accounts
      → Post
          (GoodLoader IsGood)
          (λ r.
            (account : Account) × (lookup owner ≡ some account) × OwnerAt accounts owner account r)
          (λ e. (e ≡ program_account_not_found) × (lookup owner ≡ none))
          (owner_index ids Source FeatureSet LoadedPrograms g start accounts
            (drop start accounts)
            owner
            loader)
  unfolding owner_index Post
  owner_index-Post accounts owner loader good h small found =
      elim (Option-cases (position owner (drop start accounts))) [
        | inl nowhere ↦
            rw (owner_index, nowhere)
              (bind-Post (GoodLoader IsGood) (λ account. lookup owner ≡ some account)
                (λ e. (e ≡ program_account_not_found) × (lookup owner ≡ none)) _ _
                (required ids Source FeatureSet LoadedPrograms g owner program_account_not_found) _
                loader
                (required-Post ids Source FeatureSet LoadedPrograms g lookup IsGood answers owner
                  program_account_not_found loader good)
                (λ e q. q)
                (λ account t e good'. (
                  (
                    account,
                    e,
                    (
                      record {
                        added = (owner, account) ∷ [];
                        split = refl;
                        few = omega arith;
                        found = AreFound-append lookup start accounts owner account h found e;
                      },
                      get_elem?-append_last accounts (owner, account),
                    ),
                  ),
                  good',
                )))
        | inr (i, there) ↦
            let (account, at) = position-get_elem? owner (drop start accounts) i there in
            rw (owner_index, there)
              (
                (
                  account,
                  All-get_elem? _ (drop start accounts) i (owner, account) found at,
                  (
                    record {
                      added = [];
                      split = sym (append-nil accounts);
                      few = omega arith;
                      found = found;
                    },
                    at_start i account (sym (get_elem?-drop start i accounts) ∙ at),
                  ),
                ),
                good,
              )
      ]
    where
      at_start :
          (i : ℕ) (account : Account)
          → get_elem? accounts (start + i) ≡ some (owner, account)
          → get_elem? accounts (saturating_add start i) ≡ some (owner, account)
      at_start i account e =
          let same : saturating_add start i ≡ start + i =
            omega (arith, get_elem?-lt accounts (start + i) e) in
          rw same e
