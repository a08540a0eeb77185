-- ===== src/MessageExecutor/Needed/Sorted.antt =====
-- The list of missing programs as a set: which keys it has, in order.
use solana_bpf_simulator.Prelude.{ℕ, ◌≡◌, refl, ◌∙◌, ◌⊎◌, ◌↔◌, inl, inr, List, [], ◌∷◌, All, Any}
use solana_bpf_simulator.MessageExecutor.Runtime.{Missing, Runtime}
use solana_bpf_simulator.MessageExecutor.Needed.{
  Place, found, vacant, binary_search_by_key, insert, insert_missing, add_builtins,
}
use solana_bpf_simulator.MessageExecutor.Needed.Put.{
  IsSorted, HasKey, put, searched, searched-eq-put, put-All, put-IsSorted, put-HasKey, SameKeys,
  sorted_unique,
}

module _ (rt : Runtime) where
  insert_missing-eq-put :
      (key : ℕ) (missing : Missing rt.MatchCriteria)
      → insert_missing rt key missing ≡ put key (rt.no_criteria, 0) missing
  unfolding insert_missing searched
  insert_missing-eq-put key missing =
      go (binary_search_by_key key missing) ∙ searched-eq-put key (rt.no_criteria, 0) missing
    where
      go :
          (p : Place)
          → (elim p [ found i ↦ missing | vacant i ↦ insert i (key, (rt.no_criteria, 0)) missing ])
            ≡ searched key (rt.no_criteria, 0) missing p
      go (found i) = refl
      go (vacant i) = refl

  -- A list that the code builds: sorted, with the one value for each key.
  pub record IsMissing (missing : Missing rt.MatchCriteria) : Type 0 where
    pub sorted : IsSorted missing
    pub plain : All (λ e. e.1 ≡ (rt.no_criteria, 0)) missing

  pub insert_missing-IsMissing :
      (key : ℕ) (missing : Missing rt.MatchCriteria)
      → IsMissing missing
      → IsMissing (insert_missing rt key missing)
  insert_missing-IsMissing key missing m = rw (insert_missing-eq-put key missing) (record {
    sorted = put-IsSorted key (rt.no_criteria, 0) missing m.sorted;
    plain = put-All (λ e. e.1 ≡ (rt.no_criteria, 0)) key (rt.no_criteria, 0) missing refl m.plain;
  })

  pub insert_missing-HasKey :
      (j key : ℕ) (missing : Missing rt.MatchCriteria)
      → HasKey j (insert_missing rt key missing) ↔ ((key ≡ j) ⊎ HasKey j missing)
  insert_missing-HasKey j key missing =
      rw (insert_missing-eq-put key missing) (put-HasKey j key (rt.no_criteria, 0) missing)

  pub add_builtins-IsMissing :
      (builtins : List ℕ) (missing : Missing rt.MatchCriteria)
      → IsMissing missing
      → IsMissing (add_builtins rt builtins missing)
  unfolding add_builtins
  add_builtins-IsMissing [] missing m = m
  add_builtins-IsMissing (key ∷ keys) missing m =
      add_builtins-IsMissing keys (insert_missing rt key missing)
        (insert_missing-IsMissing key missing m)

  pub add_builtins-HasKey :
      (builtins : List ℕ) (j : ℕ) (missing : Missing rt.MatchCriteria)
      → HasKey j (add_builtins rt builtins missing)
        ↔ (Any (λ key. key ≡ j) builtins ⊎ HasKey j missing)
  unfolding add_builtins
  add_builtins-HasKey [] j missing = (inr, λ h. elim h [ inl never ↦ absurd never | inr m ↦ m ])
  add_builtins-HasKey (key ∷ keys) j missing =
      let (to, from) = add_builtins-HasKey keys j (insert_missing rt key missing) in
      let (to', from') = insert_missing-HasKey j key missing in
      (
        (λ h. elim (to h) [
          | inl m ↦ inl (inr m)
          | inr i ↦ elim (to' i) [ inl e ↦ inl (inl e) | inr m ↦ inr m ]
        ]),
        (λ h. elim h [
          | inl m ↦ elim m [ inl e ↦ from (inr (from' (inl e))) | inr n ↦ from (inl n) ]
          | inr m ↦ from (inr (from' (inr m)))
        ]),
      )

  -- Two lists of builtin programs with the same keys, in any order and with repetitions, make the same list
  -- of missing programs from one that is sorted and has no criteria and counts.
  pub add_builtins_order :
      (builtins others : List ℕ) (missing : Missing rt.MatchCriteria)
      → IsMissing missing
      → ((j : ℕ) → Any (λ key. key ≡ j) builtins ↔ Any (λ key. key ≡ j) others)
      → add_builtins rt builtins missing ≡ add_builtins rt others missing
  unfolding SameKeys
  add_builtins_order builtins others missing m same =
      sorted_unique (rt.no_criteria, 0) _ _ (add_builtins-IsMissing builtins missing m).sorted
        (add_builtins-IsMissing others missing m).sorted
        (add_builtins-IsMissing builtins missing m).plain
        (add_builtins-IsMissing others missing m).plain
        (λ j. (
          (λ h.
              (add_builtins-HasKey others j missing).1
                (left (same j).0 ((add_builtins-HasKey builtins j missing).0 h))),
          (λ h.
              (add_builtins-HasKey builtins j missing).1
                (left (same j).1 ((add_builtins-HasKey others j missing).0 h))),
        ))
    where
      left : {A B C : Type 0} → (A → B) → A ⊎ C → B ⊎ C
      left f (inl a) = inl (f a)
      left f (inr c) = inr c
