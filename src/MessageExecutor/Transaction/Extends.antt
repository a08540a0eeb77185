-- ===== src/MessageExecutor/Transaction/Extends.antt =====
-- Lists of accounts that have grown by the owners of programs.
use solana_bpf_simulator.Prelude.{
  ℕ, zero, suc, ◌+◌, ◌≤◌, ◌≡◌, ap, subst, ◌∙◌, some_inj, drop-append_le, Option, some, List, [],
  ◌∷◌, ◌++◌, append_assoc, length, length-append, get_elem?, drop, All, arith,
}
use solana_bpf_simulator.InstructionExecutor.Types.{Account}
use solana_bpf_simulator.MessageExecutor.Transaction.{Accounts}
use solana_bpf_simulator.MessageExecutor.Transaction.Owners.{get_elem?-append}

pub All-append :
    {A : Type 0} (P : A → Type 0) (xs ys : List A) → All P xs → All P ys → All P (xs ++ ys)
All-append P [] ys p q = q
All-append P (x ∷ xs) ys p q = (p.0, All-append P xs ys p.1 q)

pub All-get_elem? :
    {A : Type 0} (P : A → Type 0) (xs : List A) (i : ℕ) (x : A)
    → All P xs
    → get_elem? xs i ≡ some x
    → P x
All-get_elem? P [] i x p e = cc
All-get_elem? P (y ∷ xs) zero x p e = subst P (some_inj e) p.0
All-get_elem? P (y ∷ xs) (suc i) x p e = All-get_elem? P xs i x p.1 e

module _ (lookup : ℕ → Option Account) (start : ℕ) where
  -- The accounts from `start` on, which were added for owners, are those that are found by their keys.
  abbrev pub AreFound : Accounts → Type 0
  AreFound accounts = All (λ entry. lookup entry.0 ≡ some entry.1) (drop start accounts)

  pub AreFound-append :
      (accounts : Accounts) (key : ℕ) (account : Account)
      → start ≤ length accounts
      → AreFound accounts
      → lookup key ≡ some account
      → AreFound (accounts ++ (key, account) ∷ [])
  AreFound-append accounts key account h found e =
      rw (drop-append_le accounts ((key, account) ∷ []) start h)
        (All-append _ (drop start accounts) ((key, account) ∷ []) found (e, tt))

  -- Accounts that begin with others, have at most `more` of their own, and those found by their keys.
  pub record Extends (accounts : Accounts) (more : ℕ) (extended : Accounts) : Type 0 where
    pub added : Accounts
    pub split : extended ≡ accounts ++ added
    pub few : length added ≤ more
    pub found : AreFound extended

  pub Extends-trans :
      (accounts extended whole : Accounts) (m n : ℕ)
      → Extends accounts m extended
      → Extends extended n whole
      → Extends accounts (m + n) whole
  Extends-trans accounts extended whole m n p q = record {
    added = p.added ++ q.added;
    split =
        q.split ∙ ap (λ front. front ++ q.added) p.split ∙ append_assoc accounts p.added q.added;
    few = omega (arith, length-append p.added q.added, p.few, q.few);
    found = q.found;
  }

  pub Extends-get_elem? :
      (accounts whole : Accounts) (n i : ℕ) {entry : ℕ × Account}
      → Extends accounts n whole
      → get_elem? accounts i ≡ some entry
      → get_elem? whole i ≡ some entry
  Extends-get_elem? accounts whole n i p e = rw p.split (get_elem?-append accounts p.added i e)

  pub Extends-length :
      (accounts whole : Accounts) (n : ℕ)
      → Extends accounts n whole
      → (length accounts ≤ length whole) × (length whole ≤ length accounts + n)
  Extends-length accounts whole n p =
      rw p.split (omega (arith, length-append accounts p.added, p.few))
