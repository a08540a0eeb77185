-- ===== src/MessageExecutor/Transaction/Chains.antt =====
-- What the loops over the instructions and over owners make of the accounts.
use solana_bpf_simulator.Prelude.{
  ℕ, zero, suc, ◌+◌, ◌%◌, ◌^◌, ◌≤◌, ◌≡◌, ◌≢◌, refl, sym, ap, subst, ◌∙◌, ◌⊎◌, Option, none, some,
  List, [], ◌∷◌, ◌++◌, append_assoc, append-nil, length, length-append, get_elem?, drop, ◌==◌, inl,
  inr, false, Bool-cases, ==_iff, arith,
}
use solana_bpf_simulator.Prelude.Slices.{get_from_le}
use solana_bpf_simulator.Prelude.Post.{Post, bind-Post, imp-Post}
use solana_bpf_simulator.InstructionExecutor.Types.{Account}
use solana_bpf_simulator.MessageExecutor.Types.{
  Ids, Error, program_account_not_found, call_chain_too_deep,
}
use solana_bpf_simulator.MessageExecutor.Loader.{AccountLoader, Answers}
use solana_bpf_simulator.MessageExecutor.Transaction.{Accounts, owner_index, owner_chain}
use solana_bpf_simulator.MessageExecutor.Transaction.Keys.{GoodLoader}
use solana_bpf_simulator.MessageExecutor.Transaction.Owners.{
  native, missing, deep, ending, IsChain, native_program, native_owner, owned, ending_native,
  ending_missing, ending_owner, get_elem?-lt,
}
use solana_bpf_simulator.MessageExecutor.Transaction.Extends.{
  AreFound, Extends, Extends-trans, Extends-get_elem?, Extends-length,
}
use solana_bpf_simulator.MessageExecutor.Transaction.OwnerIndex.{OwnerAt, owner_index-Post}

module _ (ids : Ids) (lookup : ℕ → Option Account) where
  -- Why a walk over owners ends without a chain.
  abbrev pub Failed : ℕ → Account → Error → Type 0
  Failed rounds program e =
      ((e ≡ program_account_not_found) × (ending ids lookup rounds program ≡ missing))
      ⊎ ((e ≡ call_chain_too_deep) × (ending ids lookup rounds program ≡ deep))

  -- A program among the first accounts whose walk fails.
  abbrev pub Unresolved : Accounts → Error → ℕ → Type 0
  Unresolved front e index =
      (key : ℕ) × (program : Account) × (get_elem? front index ≡ some (key, program))
      × (key ≢ ids.native_loader)
      × Failed 5 program e

module _ (ids : Ids) (lookup : ℕ → Option Account) (start : ℕ) where
  -- One instruction, of a program among the first accounts.
  abbrev pub Resolved : Accounts → ℕ → Accounts × List ℕ → Type 0
  Resolved accounts index (extended, chain) =
      IsChain ids extended index chain
      × (length chain ≤ 5)
      × Extends lookup start accounts 5 extended

module _ (ids : Ids) (Source FeatureSet LoadedPrograms : Type 0)
    (g : ℕ → Source → Option Account × Source) (lookup : ℕ → Option Account)
    (IsGood : Source → Type 0) (answers : Answers g lookup IsGood) (start : ℕ) where
  -- A chain put before the indices that were there, in accounts that have grown by at most one a round.
  abbrev Chained : ℕ → Accounts → ℕ → List ℕ → Accounts × List ℕ → Type 0
  Chained rounds accounts index indices (extended, result) =
      (chain : List ℕ) × (result ≡ chain ++ indices)
      × IsChain ids extended index chain
      × (length chain ≤ rounds)
      × Extends lookup start accounts rounds extended

  eq_false : (a b : ℕ) → a ≢ b → (a == b) ≡ false
  eq_false a b ne = ground arith

  false_ne : (a b : ℕ) → (a == b) ≡ false → a ≢ b
  false_ne a b e = ground arith

  -- How the walk over the owners of a program ends.
  abbrev Ended : ℕ → Account → ℕ → Accounts → List ℕ → Accounts × List ℕ → Type 0
  Ended rounds program index accounts indices r =
      (ending ids lookup rounds program ≡ native) × Chained rounds accounts index indices r

  owner_chain-Post :
      (rounds : ℕ) (accounts : Accounts) (index key : ℕ) (program : Account) (indices : List ℕ)
      (loader : AccountLoader Source FeatureSet LoadedPrograms)
      → IsGood loader.source
      → start ≤ length accounts
      → length accounts + rounds ≤ 2 ^ 16
      → AreFound lookup start accounts
      → get_elem? accounts index ≡ some (key, program)
      → key ≢ ids.native_loader
      → Post
          (GoodLoader IsGood)
          (Ended rounds program index accounts indices)
          (Failed ids lookup rounds program)
          (owner_chain ids Source FeatureSet LoadedPrograms g start rounds accounts index indices
            loader)
  unfolding owner_chain
  owner_chain-Post zero accounts index key program indices loader good h small found at other =
      unfold Post ending in (inr (refl, refl), good)
  owner_chain-Post (suc rounds) accounts index key program indices loader good h small found at
        other =
      elim (Bool-cases (program.owner == ids.native_loader)) [
        | inl top ↦
            rw (owner_chain, at, eq_false key ids.native_loader other, top)
              (unfold Post in
                (
                  (
                    ending_native ids lookup rounds program top,
                    (
                      index ∷ [],
                      ap (λ i. i ∷ indices) within,
                      native_owner index key program at other ((==_iff _ _).0 top),
                      omega arith,
                      record {
                        added = [];
                        split = sym (append-nil accounts);
                        few = omega arith;
                        found = found;
                      },
                    ),
                  ),
                  good,
                ))
        | inr owned_by ↦
            rw
              (
                owner_chain,
                at,
                eq_false key ids.native_loader other,
                owned_by,
                get_from_le start accounts h,
              )
              (bind-Post (GoodLoader IsGood)
                (λ r.
                  (account : Account) × (lookup program.owner ≡ some account)
                  × OwnerAt ids Source FeatureSet LoadedPrograms g lookup IsGood answers start
                      accounts program.owner account r)
                (λ e. (e ≡ program_account_not_found) × (lookup program.owner ≡ none))
                (Ended (suc rounds) program index accounts indices)
                (Failed ids lookup (suc rounds) program)
                (owner_index ids Source FeatureSet LoadedPrograms g start accounts
                  (drop start accounts) program.owner)
                _ loader
                (owner_index-Post ids Source FeatureSet LoadedPrograms g lookup IsGood answers start
                  accounts program.owner loader good h (omega arith) found)
                (λ e q. inl (q.0, ending_missing ids lookup rounds program owned_by q.1))
                (λ r t p good'.
                  let grown = Extends-length lookup start accounts r.0 1 p.2.0 in
                  imp-Post (GoodLoader IsGood)
                    (Ended rounds p.0 r.1 r.0 ((index % 2 ^ 16) ∷ indices))
                    (Ended (suc rounds) program index accounts indices)
                    (Failed ids lookup rounds p.0) (Failed ids lookup (suc rounds) program) _
                    (owner_chain-Post rounds r.0 r.1 program.owner p.0 ((index % 2 ^ 16) ∷ indices)
                      t good' (omega arith) (omega arith) p.2.0.found p.2.1
                      (false_ne program.owner ids.native_loader owned_by))
                    (λ w q. longer r.0 r.1 p.0 owned_by p.1 p.2.0 p.2.1 w q)
                    (λ e q. elim q [
                      | inl x ↦
                          inl (x.0, ending_owner ids lookup rounds program p.0 owned_by p.1 ∙ x.1)
                      | inr x ↦
                          inr (x.0, ending_owner ids lookup rounds program p.0 owned_by p.1 ∙ x.1)
                    ])))
      ]
    where
      within : index % 2 ^ 16 ≡ index
      within = omega (arith, get_elem?-lt accounts index at)

      longer :
          (extended : Accounts) (j : ℕ) (owner : Account)
          → (program.owner == ids.native_loader) ≡ false
          → lookup program.owner ≡ some owner
          → Extends lookup start accounts 1 extended
          → get_elem? extended j ≡ some (program.owner, owner)
          → (w : Accounts × List ℕ) → Ended rounds owner j extended ((index % 2 ^ 16) ∷ indices) w
          → Ended (suc rounds) program index accounts indices w
      longer extended j owner owned_by e grown owner_at w q =
          let (ends, (chain, out, is_chain, few, more)) = q in
          (
            ending_owner ids lookup rounds program owner owned_by e ∙ ends,
            (
              chain ++ index ∷ [],
              out
                  ∙ ap (λ i. chain ++ i ∷ indices) within
                  ∙ sym (append_assoc chain (index ∷ []) indices),
              owned index j key program owner chain (chain ++ index ∷ [])
                  (Extends-get_elem? lookup start extended w.0 rounds index more
                    (Extends-get_elem? lookup start accounts extended 1 index grown at))
                  other (false_ne program.owner ids.native_loader owned_by)
                  (Extends-get_elem? lookup start extended w.0 rounds j more owner_at) is_chain
                  refl,
              omega (arith, length-append chain (index ∷ [])),
              subst (λ n. Extends lookup start accounts n w.0) {x = 1 + rounds} {y = suc rounds}
                  (omega arith)
                  (Extends-trans lookup start accounts extended w.0 1 rounds grown more),
            ),
          )

  pub instruction-Post :
      (front accounts : Accounts) (index : ℕ)
      (loader : AccountLoader Source FeatureSet LoadedPrograms)
      → IsGood loader.source
      → start ≤ length accounts
      → length accounts + 5 ≤ 2 ^ 16
      → AreFound lookup start accounts
      → (entry : ℕ × Account) → get_elem? front index ≡ some entry
      → get_elem? accounts index ≡ some entry
      → Post
          (GoodLoader IsGood)
          (Resolved ids lookup start accounts index)
          (λ e. Unresolved ids lookup front e index)
          (owner_chain ids Source FeatureSet LoadedPrograms g start 5 accounts index [] loader)
  unfolding owner_chain
  instruction-Post front accounts index loader good h small found (key, program) first at =
      elim (Bool-cases (key == ids.native_loader)) [
        | inl top ↦
            rw (owner_chain, at, top)
              (unfold Post in
                (
                  (
                    native_program index program
                        (at ∙ ap (λ k. some (k, program)) ((==_iff key ids.native_loader).0 top)),
                    omega arith,
                    record {
                      added = [];
                      split = sym (append-nil accounts);
                      few = omega arith;
                      found = found;
                    },
                  ),
                  good,
                ))
        | inr other ↦
            imp-Post (GoodLoader IsGood) (Ended 5 program index accounts [])
              (Resolved ids lookup start accounts index) (Failed ids lookup 5 program)
              (λ e. Unresolved ids lookup front e index) _
              (owner_chain-Post 5 accounts index key program [] loader good h small found at
                (false_ne key ids.native_loader other))
              (λ w q.
                let (ends, (chain, out, is_chain, few, more)) = q in
                let whole : w.1 ≡ chain = out ∙ append-nil chain in
                (rw whole is_chain, rw whole few, more))
              (λ e q. (key, program, first, false_ne key ids.native_loader other, q))
      ]
