-- ===== src/MessageExecutor/Needed/Messages.antt =====
-- Which programs messages need.
use solana_bpf_simulator.Prelude.{
  ℕ, ◌≡◌, refl, sym, ap, some_inj, ◌∙◌, ◌⊎◌, ◌↔◌, inl, inr, true, false, Option, none, some, List,
  [], ◌∷◌, Any, if◌then◌else◌, Bool-cases, Option-cases,
}
use solana_bpf_simulator.Prelude.Post.{Post, bind-Post, imp-Post}
use solana_bpf_simulator.InstructionExecutor.Types.{Account}
use solana_bpf_simulator.MessageExecutor.Types.{Message, Error, account_not_found}
use solana_bpf_simulator.MessageExecutor.Loader.{
  AccountLoader, Answers, get_account_with_fixed_root,
}
use solana_bpf_simulator.MessageExecutor.Runtime.{Missing, Runtime}
use solana_bpf_simulator.MessageExecutor.Needed.{contains, insert_missing, add_keys, add_messages}
use solana_bpf_simulator.MessageExecutor.Needed.Put.{HasKey}
use solana_bpf_simulator.MessageExecutor.Needed.Sorted.{
  IsMissing, insert_missing-IsMissing, insert_missing-HasKey,
}

-- The key of a program: the owner of its account is one of the loaders.
abbrev pub IsProgram : (ℕ → Option Account) → List ℕ → ℕ → Type 0
IsProgram lookup owners key =
    (account : Account) × (lookup key ≡ some account) × (contains owners account.owner ≡ true)

-- The keys of `keys` for which `P` holds.
abbrev pub Chosen : (ℕ → Type 0) → ℕ → List ℕ → Type 0
Chosen P j keys = Any (λ key. (key ≡ j) × P key) keys

both : {W A B K M : Type 0} → W ↔ (A ⊎ B) → B ↔ (K ⊎ M) → W ↔ ((K ⊎ A) ⊎ M)
both (to, from) (to', from') = (
  (λ w. elim (to w) [
    | inl a ↦ inl (inr a)
    | inr b ↦ elim (to' b) [ inl k ↦ inl (inl k) | inr m ↦ inr m ]
  ]),
  (λ h. elim h [
    | inl c ↦ elim c [ inl k ↦ from (inr (from' (inl k))) | inr a ↦ from (inl a) ]
    | inr m ↦ from (inr (from' (inr m)))
  ]),
)

module _ (rt : Runtime) (Source : Type 0) (g : ℕ → Source → Option Account × Source)
    (lookup : ℕ → Option Account) (IsGood : Source → Type 0) (answers : Answers g lookup IsGood)
    (start : AccountLoader Source rt.FeatureSet rt.LoadedPrograms) where
  -- Only the state of the client has changed since `start`, and it is good.
  abbrev pub Good : AccountLoader Source rt.FeatureSet rt.LoadedPrograms → Type 0
  Good loader = IsGood loader.source × (loader ≡ record start { source = loader.source })

  -- The list grows by the programs among the keys, and stays sorted.
  Grows : List ℕ → Missing rt.MatchCriteria → Missing rt.MatchCriteria → Type 0
  Grows keys missing grown =
      IsMissing rt grown
      × ((j : ℕ)
          → HasKey j grown
            ↔ (Chosen (IsProgram lookup start.program_owners) j keys ⊎ HasKey j missing))

  -- One key whose account is known.
  step_key :
      (key : ℕ) (account : Account) (missing : Missing rt.MatchCriteria)
      → lookup key ≡ some account
      → IsMissing rt missing
      → let grown =
          if contains start.program_owners account.owner
          then insert_missing rt key missing
          else missing in
        IsMissing rt grown
        × ((j : ℕ)
            → HasKey j grown
              ↔ (((key ≡ j) × IsProgram lookup start.program_owners key) ⊎ HasKey j missing))
  step_key key account missing there m =
      elim (Bool-cases (contains start.program_owners account.owner)) [
        | inl owned ↦ rw owned (
          insert_missing-IsMissing rt key missing m,
          λ j.
              let (to, from) = insert_missing-HasKey rt j key missing in
              (
                (λ h. elim (to h) [ inl e ↦ inl (e, (account, there, owned)) | inr k ↦ inr k ]),
                (λ h. elim h [ inl p ↦ from (inl p.0) | inr k ↦ from (inr k) ]),
              ),
        )
        | inr foreign ↦
            rw foreign
              (m, λ j. (inr, λ h. elim h [ inl p ↦ absurd (not_program p.1 foreign) | inr k ↦ k ]))
      ]
    where
      not_program :
          IsProgram lookup start.program_owners key
          → contains start.program_owners account.owner ≡ false
          → ⊥
      not_program (a, e, c) foreign =
          let same : a ≡ account = some_inj (sym e ∙ there) in
          let wrong : true ≡ false =
            sym c ∙ ap (λ x. contains start.program_owners x.owner) same ∙ foreign in
          cc

  AbsentKey : List ℕ → Error → Type 0
  AbsentKey keys e = (e ≡ account_not_found) × Any (λ key. lookup key ≡ none) keys

  add_keys-Post :
      (keys : List ℕ) (missing : Missing rt.MatchCriteria)
      (loader : AccountLoader Source rt.FeatureSet rt.LoadedPrograms)
      → Good loader
      → IsMissing rt missing
      → Post Good (Grows keys missing) (AbsentKey keys) (add_keys rt Source g keys missing loader)
  unfolding add_keys Grows AbsentKey get_account_with_fixed_root
  add_keys-Post [] missing loader good m =
      unfold Post in ((m, λ j. (inr, λ h. elim h [ inl never ↦ absurd never | inr k ↦ k ])), good)
  add_keys-Post (key ∷ keys) missing loader good m = elim (Option-cases (lookup key)) [
    | inl absent ↦
        rw (add_keys, get_account_with_fixed_root, asked none absent)
          (unfold Post in ((refl, inl absent), (answers.keep key loader.source good.0, moved)))
    | inr (account, there) ↦
        let (m', grown) = step_key key account missing there m in
        rw (add_keys, get_account_with_fixed_root, asked (some account) there, same_owners)
          (imp-Post Good
            (Grows keys (
              if contains start.program_owners account.owner
              then insert_missing rt key missing
              else missing))
            (Grows (key ∷ keys) missing) (AbsentKey keys) (AbsentKey (key ∷ keys)) _
            (add_keys-Post keys
              (if contains start.program_owners account.owner
                then insert_missing rt key missing
                else missing)
              (record loader {
                source = (g key loader.source).1;
                program_owners = start.program_owners;
              })
              (answers.keep key loader.source good.0, replaced) m')
            (λ w q. (q.0, λ j. both (q.1 j) (grown j))) (λ e q. (q.0, inr q.1)))
  ]
    where
      asked : (o : Option Account) → lookup key ≡ o → (g key loader.source).0 ≡ o
      asked o e = answers.answer key loader.source good.0 ∙ e

      same_owners : loader.program_owners ≡ start.program_owners
      same_owners = ap (λ l. l.program_owners) good.1

      moved :
          ◌≡◌ {A = AccountLoader Source rt.FeatureSet rt.LoadedPrograms}
            (record loader { source = (g key loader.source).1 })
            (record start { source = (g key loader.source).1 })
      moved =
          ap {A = AccountLoader Source rt.FeatureSet rt.LoadedPrograms}
            (λ l. record l { source = (g key loader.source).1 }) good.1

      replaced :
          ◌≡◌ {A = AccountLoader Source rt.FeatureSet rt.LoadedPrograms}
            (record loader {
              source = (g key loader.source).1;
              program_owners = start.program_owners;
            })
            (record start { source = (g key loader.source).1 })
      replaced =
          ap {A = AccountLoader Source rt.FeatureSet rt.LoadedPrograms}
            (λ l. record l {
              source = (g key loader.source).1;
              program_owners = start.program_owners;
            })
            good.1

  -- The list grows by the programs among the keys of the messages.
  abbrev pub Needs : List Message → Missing rt.MatchCriteria → Missing rt.MatchCriteria → Type 0
  Needs messages missing grown =
      IsMissing rt grown
      × ((j : ℕ)
          → HasKey j grown ↔ (
              Any (λ msg. Chosen (IsProgram lookup start.program_owners) j msg.account_keys)
                messages
              ⊎ HasKey j missing))

  abbrev pub AbsentAccount : List Message → Error → Type 0
  AbsentAccount messages e =
      (e ≡ account_not_found)
      × Any (λ msg. Any (λ key. lookup key ≡ none) msg.account_keys) messages

  pub add_messages-Post :
      (messages : List Message) (missing : Missing rt.MatchCriteria)
      (loader : AccountLoader Source rt.FeatureSet rt.LoadedPrograms)
      → Good loader
      → IsMissing rt missing
      → Post Good
          (Needs messages missing)
          (AbsentAccount messages)
          (add_messages rt Source g messages missing loader)
  unfolding add_messages
  add_messages-Post [] missing loader good m =
      unfold Post in ((m, λ j. (inr, λ h. elim h [ inl never ↦ absurd never | inr k ↦ k ])), good)
  add_messages-Post (msg ∷ messages) missing loader good m =
      bind-Post Good (Grows msg.account_keys missing) (AbsentKey msg.account_keys)
        (Needs (msg ∷ messages) missing) (AbsentAccount (msg ∷ messages))
        (add_keys rt Source g msg.account_keys missing) (add_messages rt Source g messages) loader
        (add_keys-Post msg.account_keys missing loader good m)
        (λ e q. unfold AbsentKey in (q.0, inl q.1))
        (λ added t p good'.
          imp-Post Good (Needs messages added) (Needs (msg ∷ messages) missing)
            (AbsentAccount messages) (AbsentAccount (msg ∷ messages)) _
            (add_messages-Post messages added t good' (unfold Grows in p.0))
            (λ w q. (q.0, λ j. both (q.1 j) (unfold Grows in p.1 j))) (λ e q. (q.0, inr q.1)))
