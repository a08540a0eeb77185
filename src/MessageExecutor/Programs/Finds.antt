-- ===== src/MessageExecutor/Programs/Finds.antt =====
-- Loading a program, by the relation of which accounts make it.
use solana_bpf_simulator.Prelude.{
  ℕ, ◌/◌, ◌≡◌, ◌≢◌, refl, sym, ap, false, Option, none, some, List, [], ◌∷◌, ◌==◌, Bool-cases, inl,
  inr, ==_iff, arith,
}
use solana_bpf_simulator.Prelude.Method.{pure}
use solana_bpf_simulator.Prelude.Post.{Post, bind-Post}
use solana_bpf_simulator.InstructionExecutor.Types.{Account}
use solana_bpf_simulator.MessageExecutor.Types.{Ids, Error}
use solana_bpf_simulator.MessageExecutor.Loader.{
  AccountLoader, Answers, get_account_with_fixed_root,
}
use solana_bpf_simulator.MessageExecutor.Runtime.{
  failed_verification, UpgradeableLoaderState, program, program_data, other, LoaderV4State, Missing,
  Runtime,
}
use solana_bpf_simulator.MessageExecutor.Needed.{get_account}
use solana_bpf_simulator.MessageExecutor.Programs.{
  ProgramAccountLoadResult, loader_v4_result, programdata_result, second_result, upgradeable_result,
  program_result, load_program_accounts, unwrap_or, verified, load_program, load_missing,
}
use solana_bpf_simulator.MessageExecutor.Programs.Relation.{
  Finds, absent, v4, v4_retracted, v4_unreadable, v1_or_v2, v3, v3_absent, v3_no_programdata,
  v3_no_program,
}

-- No error.
abbrev pub Never : Error → Type 0
Never e = ⊥

module _ (ids : Ids) (rt : Runtime) (Source : Type 0) (g : ℕ → Source → Option Account × Source)
    (lookup : ℕ → Option Account) (IsGood : Source → Type 0) (answers : Answers g lookup IsGood)
    (start : AccountLoader Source rt.FeatureSet rt.LoadedPrograms) where
  -- Only the state of the client has changed since `start`, and it is good.
  abbrev pub Same : AccountLoader Source rt.FeatureSet rt.LoadedPrograms → Type 0
  Same loader = IsGood loader.source × (loader ≡ record start { source = loader.source })

  get_account-Post :
      (key : ℕ) (loader : AccountLoader Source rt.FeatureSet rt.LoadedPrograms)
      → Same loader
      → Post Same (λ answer. lookup key ≡ answer) Never (get_account rt Source g key loader)
  unfolding Post get_account_with_fixed_root
  get_account-Post key loader same = (
    sym (answers.answer key loader.source same.0),
    (
      answers.keep key loader.source same.0,
      ap {A = AccountLoader Source rt.FeatureSet rt.LoadedPrograms}
          (λ l. record l { source = (g key loader.source).1 }) same.1,
    ),
  )

  module _ (key : ℕ) where
    loader_v4_result-Finds :
        (account : Account)
        → lookup key ≡ some account
        → account.owner ≡ ids.loader_v4
        → (state : Option LoaderV4State) → rt.loader_v4_state account.data_bytes ≡ state
        → Finds ids rt lookup key (loader_v4_result rt account state)
    unfolding loader_v4_result
    loader_v4_result-Finds account e o none s = v4_unreadable account e o s
    loader_v4_result-Finds account e o (some state) s = elim (Bool-cases state.retracted) [
      | inl gone ↦ rw gone (v4_retracted account state e o s gone)
      | inr stays ↦ rw stays (v4 account state e o s stays)
    ]

    second_result-Finds :
        (account : Account) (address : ℕ)
        → lookup key ≡ some account
        → account.owner ≡ ids.bpf_loader_upgradeable
        → rt.upgradeable_state account ≡ some (program address)
        → (answer : Option Account) → lookup address ≡ answer
        → Finds ids rt lookup key (second_result rt account answer)
    unfolding second_result programdata_result
    second_result-Finds account address e o p none a = v3_absent account address e o p a
    second_result-Finds account address e o p (some programdata) a =
        go (rt.upgradeable_state programdata) refl
      where
        go :
            (state : Option UpgradeableLoaderState)
            → rt.upgradeable_state programdata ≡ state
            → Finds ids rt lookup key (programdata_result rt account programdata state)
        go (some (program_data slot)) s = v3 account programdata address slot e o p a s
        go (some (program b)) s =
            v3_no_programdata account programdata address e o p a (λ slot w. cc)
        go (some other) s = v3_no_programdata account programdata address e o p a (λ slot w. cc)
        go none s = v3_no_programdata account programdata address e o p a (λ slot w. cc)

    upgradeable_result-Post :
        (account : Account) (loader : AccountLoader Source rt.FeatureSet rt.LoadedPrograms)
        → Same loader
        → lookup key ≡ some account
        → account.owner ≡ ids.bpf_loader_upgradeable
        → (state : Option UpgradeableLoaderState) → rt.upgradeable_state account ≡ state
        → Post Same
            (Finds ids rt lookup key)
            Never
            (upgradeable_result ids rt Source g account state loader)
    unfolding upgradeable_result
    upgradeable_result-Post account loader same e o (some (program address)) s =
        bind-Post Same (λ answer. lookup address ≡ answer) Never (Finds ids rt lookup key) Never
          (get_account rt Source g address) (λ answer. pure (second_result rt account answer))
          loader (get_account-Post address loader same) (λ _ never. never)
          (λ answer t a same'.
            unfold Post in (second_result-Finds account address e o s answer a, same'))
    upgradeable_result-Post account loader same e o (some (program_data slot)) s =
        unfold Post in (v3_no_program account e o (λ address w. cc), same)
    upgradeable_result-Post account loader same e o (some other) s =
        unfold Post in (v3_no_program account e o (λ address w. cc), same)
    upgradeable_result-Post account loader same e o none s =
        unfold Post in (v3_no_program account e o (λ address w. cc), same)

    program_result-Post :
        (answer : Option Account) (loader : AccountLoader Source rt.FeatureSet rt.LoadedPrograms)
        → Same loader
        → lookup key ≡ answer
        → Post Same (Finds ids rt lookup key) Never (program_result ids rt Source g answer loader)
    unfolding program_result
    program_result-Post none loader same e = unfold Post in (absent e, same)
    program_result-Post (some account) loader same e =
        elim (Bool-cases (account.owner == ids.loader_v4)) [
          | inl new ↦
              rw new (
                unfold Post in (loader_v4_result-Finds account e ((==_iff _ _).0 new) _ refl, same))
          | inr old ↦ elim (Bool-cases (account.owner == ids.bpf_loader_upgradeable)) [
            | inl upgradeable ↦
                rw (old, upgradeable)
                  (upgradeable_result-Post account loader same e ((==_iff _ _).0 upgradeable) _
                    refl)
            | inr fixed ↦
                rw (old, fixed) (unfold Post in (v1_or_v2 account e (ne old) (ne fixed), same))
          ]
        ]
      where
        ne : {a b : ℕ} → (a == b) ≡ false → a ≢ b
        ne h = ground arith

    -- Reading the accounts of a program never fails, and changes nothing but the client's state: the result
    -- is the one that the accounts of the program make, by the relation of which accounts those are.
    pub load_program_accounts-Post :
        (loader : AccountLoader Source rt.FeatureSet rt.LoadedPrograms)
        → Same loader
        → Post Same
            (Finds ids rt lookup key)
            Never
            (load_program_accounts ids rt Source g key loader)
    unfolding load_program_accounts
    load_program_accounts-Post loader same =
        bind-Post Same (λ answer. lookup key ≡ answer) Never (Finds ids rt lookup key) Never
          (get_account rt Source g key) (program_result ids rt Source g) loader
          (get_account-Post key loader same) (λ _ never. never)
          (λ answer t a same'. program_result-Post answer t same' a)

  -- What a loader in the state `loader` makes of the accounts of a program.
  abbrev pub built :
      AccountLoader Source rt.FeatureSet rt.LoadedPrograms
      → ℕ
      → ProgramAccountLoadResult
      → rt.LoadedProgram
  built loader slot result =
      let environments =
        rt.get_environments_for_epoch loader.loaded_programs_cache (slot / rt.slots_per_epoch) in
      unwrap_or (verified rt environments loader.feature_set slot result)
        (rt.new_tombstone slot (failed_verification (rt.program_runtime_v1 environments)))

  -- A program that is loaded at a slot: what its accounts make, checked, or else a tombstone.
  abbrev pub IsProgramOf : ℕ → ℕ → rt.LoadedProgram → Type 0
  IsProgramOf slot key loaded =
      (result : ProgramAccountLoadResult) × Finds ids rt lookup key result
      × (loaded ≡ built start slot result)

  -- Where the client answers every key in one way, and only the state of the client has changed since
  -- the state `start`: loading a program at a slot never fails, changes only the state of the client,
  -- and returns what the one result that the accounts of the key have makes in `start`, or a
  -- tombstone.
  pub load_program-Post :
      (slot key : ℕ) (loader : AccountLoader Source rt.FeatureSet rt.LoadedPrograms)
      → Same loader
      → Post Same (IsProgramOf slot key) Never (load_program ids rt Source g slot key loader)
  unfolding load_program
  load_program-Post slot key loader same =
      bind-Post Same (Finds ids rt lookup key) Never (IsProgramOf slot key) Never
        (load_program_accounts ids rt Source g key) _ loader
        (load_program_accounts-Post key loader same) (λ _ never. never)
        (λ result t finds same'.
          unfold Post in ((result, finds, ap (λ l. built l slot result) same.1), same'))

  -- The programs of a list of missing ones, in its order, with the counts that it has.
  abbrev pub AreProgramsOf : ℕ → Missing rt.MatchCriteria → List (ℕ × rt.LoadedProgram) → Type 0
  AreProgramsOf slot [] [] = Unit {0}
  AreProgramsOf slot [] (_ ∷ _) = ⊥
  AreProgramsOf slot (_ ∷ _) [] = ⊥
  AreProgramsOf slot ((key, (_, count)) ∷ missing) ((k, loaded) ∷ programs) =
      (k ≡ key)
      × ((p : rt.LoadedProgram) × IsProgramOf slot key p × (loaded ≡ rt.store_usage p count))
      × AreProgramsOf slot missing programs

  pub load_missing-Post :
      (slot : ℕ) (missing : Missing rt.MatchCriteria)
      (loader : AccountLoader Source rt.FeatureSet rt.LoadedPrograms)
      → Same loader
      → Post Same
          (AreProgramsOf slot missing)
          Never
          (load_missing ids rt Source g slot missing loader)
  unfolding load_missing
  load_missing-Post slot [] loader same = unfold Post in (tt, same)
  load_missing-Post slot ((key, (criteria, count)) ∷ missing) loader same =
      bind-Post Same (IsProgramOf slot key) Never
        (AreProgramsOf slot ((key, (criteria, count)) ∷ missing)) Never
        (load_program ids rt Source g slot key) _ loader (load_program-Post slot key loader same)
        (λ _ never. never)
        (λ loaded t p same'.
          bind-Post Same (AreProgramsOf slot missing) Never
            (AreProgramsOf slot ((key, (criteria, count)) ∷ missing)) Never
            (load_missing ids rt Source g slot missing)
            (λ rest. pure ((key, rt.store_usage loaded count) ∷ rest)) t
            (load_missing-Post slot missing t same') (λ _ never. never)
            (λ rest t' q same''. unfold Post in ((refl, (loaded, p, refl), q), same'')))
