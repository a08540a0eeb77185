-- ===== src/MessageExecutor/Transaction/Owners.antt =====
-- The chain of owners of a program, as accounts are found by their keys, and as it stands in a list of
-- loaded accounts.
use solana_bpf_simulator.Prelude.{
  ℕ, zero, suc, ◌+◌, ◌<◌, ◌≡◌, ◌≢◌, refl, ap, ◌∙◌, true, false, Option, none, some, List, [], ◌∷◌,
  ◌++◌, length, get_elem?, drop, ◌==◌, if◌then◌else◌, Option-cases, inl, inr, Bool-cases, ==_iff,
  arith,
}
use solana_bpf_simulator.InstructionExecutor.Types.{Account}
use solana_bpf_simulator.MessageExecutor.Types.{Ids}
use solana_bpf_simulator.MessageExecutor.Transaction.{Accounts, position}

-- How a walk from owner to owner ends: at the native loader, at an owner that is not found, or after
-- the rounds that it was given.
pub data Ending : Type 0 where
  native missing deep : Ending

module _ (ids : Ids) (lookup : ℕ → Option Account) where
  unfoldable pub ending : ℕ → Account → Ending
  ending zero program = deep
  ending (suc rounds) program =
      if program.owner == ids.native_loader
      then native
      else elim (lookup program.owner) [ none ↦ missing | some owner ↦ ending rounds owner ]

  pub ending_native :
      (rounds : ℕ) (program : Account)
      → (program.owner == ids.native_loader) ≡ true
      → ending (suc rounds) program ≡ native
  unfolding ending
  ending_native rounds program e = rw e refl

  pub ending_missing :
      (rounds : ℕ) (program : Account)
      → (program.owner == ids.native_loader) ≡ false
      → lookup program.owner ≡ none
      → ending (suc rounds) program ≡ missing
  unfolding ending
  ending_missing rounds program e f = rw (ending, e, f) refl

  pub ending_owner :
      (rounds : ℕ) (program owner : Account)
      → (program.owner == ids.native_loader) ≡ false
      → lookup program.owner ≡ some owner
      → ending (suc rounds) program ≡ ending rounds owner
  unfolding ending
  ending_owner rounds program owner e f = rw (ending, e, f) refl

module _ (ids : Ids) (accounts : Accounts) where
  -- The indices of a program and of the programs that own it, the last owner first: each is the owner
  -- of the one behind it, and the first one is owned by the native loader. The native loader itself
  -- has no such index.
  pub data IsChain : ℕ → List ℕ → Type 0 where
    native_program :
        (i : ℕ) (program : Account)
        → get_elem? accounts i ≡ some (ids.native_loader, program)
        → IsChain i []
    native_owner :
        (i key : ℕ) (program : Account)
        → get_elem? accounts i ≡ some (key, program)
        → key ≢ ids.native_loader
        → program.owner ≡ ids.native_loader
        → IsChain i (i ∷ [])
    owned :
        (i j key : ℕ) (program owner : Account) (rest indices : List ℕ)
        → get_elem? accounts i ≡ some (key, program)
        → key ≢ ids.native_loader
        → program.owner ≢ ids.native_loader
        → get_elem? accounts j ≡ some (program.owner, owner)
        → IsChain j rest
        → indices ≡ rest ++ i ∷ []
        → IsChain i indices

module _ {ℓ} {A : Type ℓ} where
  pub get_elem?-append :
      (xs ys : List A) (i : ℕ) {x : A} → get_elem? xs i ≡ some x → get_elem? (xs ++ ys) i ≡ some x
  get_elem?-append [] ys i e = cc
  get_elem?-append (x ∷ xs) ys zero e = e
  get_elem?-append (x ∷ xs) ys (suc i) e = get_elem?-append xs ys i e

  pub get_elem?-append_last : (xs : List A) (x : A) → get_elem? (xs ++ x ∷ []) (length xs) ≡ some x
  get_elem?-append_last [] x = refl
  get_elem?-append_last (y ∷ xs) x = get_elem?-append_last xs x

  pub get_elem?-drop : (n i : ℕ) (xs : List A) → get_elem? (drop n xs) i ≡ get_elem? xs (n + i)
  get_elem?-drop zero i xs = ap (get_elem? xs) {x = i} {y = zero + i} (omega arith)
  get_elem?-drop (suc n) i [] = refl
  get_elem?-drop (suc n) i (x ∷ xs) =
      get_elem?-drop n i xs
      ∙ ap (get_elem? (x ∷ xs)) {x = suc (n + i)} {y = suc n + i} (omega arith)

  pub get_elem?-lt : (xs : List A) (i : ℕ) {x : A} → get_elem? xs i ≡ some x → i < length xs
  get_elem?-lt [] i e = cc
  get_elem?-lt (y ∷ xs) zero e = omega arith
  get_elem?-lt (y ∷ xs) (suc i) e = omega (arith, get_elem?-lt xs i e)

-- What `position` finds is an account under the key.
pub position-get_elem? :
    (owner : ℕ) (accounts : Accounts) (i : ℕ)
    → position owner accounts ≡ some i
    → (account : Account) × (get_elem? accounts i ≡ some (owner, account))
unfolding position
position-get_elem? owner [] i e = cc
position-get_elem? owner ((key, account) ∷ accounts) i e = elim (Bool-cases (key == owner)) [
  | inl same ↦
      let z : i ≡ zero = ground arith in
      (account, rw z (ap (λ k. some (k, account)) ((==_iff key owner).0 same)))
  | inr other ↦ elim (Option-cases (position owner accounts)) [
    | inl nowhere ↦ absurd (ground arith)
    | inr (j, there) ↦
        let z : i ≡ suc j = ground arith in
        let (found, at) = position-get_elem? owner accounts j there in (found, rw z at)
  ]
]

-- A chain remains one when accounts are added behind it.
pub IsChain-append :
    (ids : Ids) (accounts added : Accounts) {i : ℕ} {indices : List ℕ}
    → IsChain ids accounts i indices
    → IsChain ids (accounts ++ added) i indices
IsChain-append ids accounts added (native_program i program e) =
    native_program i program (get_elem?-append accounts added i e)
IsChain-append ids accounts added (native_owner i key program e n o) =
    native_owner i key program (get_elem?-append accounts added i e) n o
IsChain-append ids accounts added (owned i j key program owner rest indices e n o f c s) =
    owned i j key program owner rest indices (get_elem?-append accounts added i e) n o
      (get_elem?-append accounts added j f) (IsChain-append ids accounts added c) s
