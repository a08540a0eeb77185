-- ===== src/MessageExecutor/Executor/Builtins.antt =====
-- Which builtin programs an executor knows for the features that it is made with.
use solana_bpf_simulator.Prelude.{
  ℕ, ◌≡◌, refl, sym, ap, ◌∙◌, Bool, true, false, ◌&&◌, Option, none, some, List, [], ◌∷◌, ◌==◌,
  if◌then◌else◌, Bool-cases, Option-cases, ==_iff, inl, inr, ◌⊎◌,
}
use solana_bpf_simulator.Prelude.Outcome.{ok, panic}
use solana_bpf_simulator.MessageExecutor.Types.{Ids}
use solana_bpf_simulator.MessageExecutor.Runtime.{Runtime}
use solana_bpf_simulator.MessageExecutor.Needed.{contains}
use solana_bpf_simulator.MessageExecutor.Executor
use solana_bpf_simulator.MessageExecutor.Executor.{
  Builtin, Processor, MessageExecutor, insert_key, activate_all, should_apply, add_builtin_programs,
  initial,
}

-- A feature set has no feature active by default, and `activate` makes one feature active.
pub record FeatureLaws (rt : Runtime) (proc : Processor rt) : Type 0 where
  pub none_active : (key : ℕ) → rt.is_active proc.default_features key ≡ false
  pub active :
      (features : rt.FeatureSet) (feature slot key : ℕ)
      → rt.is_active (proc.activate features feature slot) key
        ≡ (if feature == key then true else rt.is_active features key)

-- The builtin programs of an enabled feature, or of none.
unfoldable pub is_enabled : List ℕ → Option ℕ → Bool
is_enabled enabled none = true
is_enabled enabled (some feature) = contains enabled feature

module _ {LoadedProgram : Type 0} where
  unfoldable pub is_builtin : List ℕ → List (Builtin LoadedProgram) → ℕ → Bool
  is_builtin enabled [] key = false
  is_builtin enabled (builtin ∷ builtins) key =
      if is_enabled enabled builtin.feature_id && (builtin.program_id == key)
      then true
      else is_builtin enabled builtins key

if_or :
    (a b c : Bool)
    → (if (if a then true else b) then true else c) ≡ (if b then true else if a then true else c)
if_or true true c = refl
if_or true false c = refl
if_or false true c = refl
if_or false false c = refl

contains-insert_key :
    (new key : ℕ) (keys : List ℕ)
    → contains (insert_key new keys) key ≡ (if new == key then true else contains keys key)
unfolding insert_key contains
contains-insert_key new key keys = elim (Bool-cases (contains keys new)) [
  | inl there ↦ elim (Bool-cases (new == key)) [
    | inl same ↦ rw (there, same) (ap (contains keys) (sym ((==_iff new key).0 same)) ∙ there)
    | inr other ↦ rw (there, other) refl
  ]
  | inr absent ↦ rw absent refl
]

module _ (ids : Ids) (rt : Runtime) (proc : Processor rt) (laws : FeatureLaws rt proc) where
  is_active-activate_all :
      (enabled : List ℕ) (features : rt.FeatureSet) (key : ℕ)
      → rt.is_active (activate_all ids rt proc enabled features) key
        ≡ (if rt.is_active features key then true else contains enabled key)
  unfolding activate_all contains
  is_active-activate_all [] features key = elim (Bool-cases (rt.is_active features key)) [
    | inl on ↦ rw on refl
    | inr off ↦ rw off refl
  ]
  is_active-activate_all (feature ∷ enabled) features key =
      is_active-activate_all enabled (proc.activate features feature 0) key
      ∙ ap (λ b. if b then true else contains enabled key) (laws.active features feature 0 key)
      ∙ if_or (feature == key) (rt.is_active features key) (contains enabled key)

  should_apply-activate_all :
      (enabled : List ℕ) (feature : Option ℕ)
      → should_apply ids rt proc (activate_all ids rt proc enabled proc.default_features) feature
        ≡ is_enabled enabled feature
  unfolding should_apply is_enabled
  should_apply-activate_all enabled none = refl
  should_apply-activate_all enabled (some feature) =
      is_active-activate_all enabled proc.default_features feature
      ∙ ap (λ b. if b then true else contains enabled feature) (laws.none_active feature)

  contains-add_builtin_programs :
      (enabled : List ℕ) (builtins : List (Builtin rt.LoadedProgram))
      (this : MessageExecutor ids rt proc) (key : ℕ)
      → this.feature_set ≡ activate_all ids rt proc enabled proc.default_features
      → contains
          (MessageExecutor.builtin_programs (add_builtin_programs ids rt proc builtins this))
          key
        ≡ (if contains this.builtin_programs key then true else is_builtin enabled builtins key)
  unfolding add_builtin_programs is_builtin
  contains-add_builtin_programs enabled [] this key same =
      elim (Bool-cases (contains this.builtin_programs key)) [
        | inl there ↦ rw there refl
        | inr absent ↦ rw absent refl
      ]
  contains-add_builtin_programs enabled (builtin ∷ builtins) this key same =
      let applies =
        ap (λ f. should_apply ids rt proc f builtin.feature_id) same
        ∙ should_apply-activate_all enabled builtin.feature_id in
      elim (Bool-cases (is_enabled enabled builtin.feature_id)) [
        | inl on ↦
            rw (applies ∙ on, on)
              (contains-add_builtin_programs enabled builtins
                  (record this {
                    builtin_programs = insert_key builtin.program_id this.builtin_programs;
                    loaded_programs =
                        (rt.replenish builtin.program_id builtin.new_builtin
                          this.loaded_programs).1;
                  })
                  key same
                ∙ ap (λ b. if b then true else is_builtin enabled builtins key)
                    (contains-insert_key builtin.program_id key this.builtin_programs)
                ∙ if_or (builtin.program_id == key) (contains this.builtin_programs key)
                    (is_builtin enabled builtins key))
        | inr off ↦
            rw (applies ∙ off, off) (contains-add_builtin_programs enabled builtins this key same)
      ]

  add_builtin_programs_feature_set :
      (builtins : List (Builtin rt.LoadedProgram)) (this : MessageExecutor ids rt proc)
      → MessageExecutor.feature_set (add_builtin_programs ids rt proc builtins this)
        ≡ this.feature_set
  unfolding add_builtin_programs
  add_builtin_programs_feature_set [] this = refl
  add_builtin_programs_feature_set (builtin ∷ builtins) this =
      elim (Bool-cases (should_apply ids rt proc this.feature_set builtin.feature_id)) [
        | inl on ↦ rw on (
            add_builtin_programs_feature_set builtins (record this {
              builtin_programs = insert_key builtin.program_id this.builtin_programs;
              loaded_programs =
                  (rt.replenish builtin.program_id builtin.new_builtin this.loaded_programs).1;
            }))
        | inr off ↦ rw off (add_builtin_programs_feature_set builtins this)
      ]

  -- Where a feature set has the features that were activated: made with any enabled features, the
  -- executor panics where the runtime gives no environment for them, and else has these features, and
  -- knows as builtin programs those whose feature is enabled or that need none, and no other.
  pub new-builtin_programs :
      (enabled : List ℕ)
      → ((proc.create_program_runtime_environment_v1
              (activate_all ids rt proc enabled proc.default_features)
            ≡ none)
          × (Executor.new ids rt proc enabled ≡ panic))
        ⊎ ((this : MessageExecutor ids rt proc) × (Executor.new ids rt proc enabled ≡ ok this)
            × ((key : ℕ)
                → contains this.builtin_programs key ≡ is_builtin enabled proc.builtins key)
            × ((feature : ℕ) → rt.is_active this.feature_set feature ≡ contains enabled feature))
  unfolding Executor.new initial contains
  new-builtin_programs enabled =
      let features = activate_all ids rt proc enabled proc.default_features in
      elim (Option-cases (proc.create_program_runtime_environment_v1 features)) [
        | inl missing ↦ inl (missing, rw missing refl)
        | inr (v1, there) ↦ inr (
          add_builtin_programs ids rt proc proc.builtins (initial ids rt proc features v1),
          rw there refl,
          (λ key.
              contains-add_builtin_programs enabled proc.builtins (initial ids rt proc features v1)
                key refl),
          (λ feature.
              ap (λ f. rt.is_active f feature)
                (add_builtin_programs_feature_set proc.builtins (initial ids rt proc features v1))
              ∙ is_active-activate_all enabled proc.default_features feature
              ∙ ap (λ b. if b then true else contains enabled feature) (laws.none_active feature)),
        )
      ]
