-- ===== src/CommandLine/Source.antt =====
-- src/main.rs: the closure of `Simulate::run`, which asks the node for an account once.
use solana_bpf_simulator.Prelude.{
  ℕ, ◌≡◌, refl, sym, ap, ◌∙◌, true, false, Option, none, some, List, [], ◌∷◌, ◌==◌, if◌then◌else◌,
  Bool-cases, Option-cases, ==_iff, ==_refl, inl, inr, ◌⊎◌, some_inj,
}
use solana_bpf_simulator.InstructionExecutor.Types.{Account}
use solana_bpf_simulator.MessageExecutor.Loader.{Answers}
use solana_bpf_simulator.CommandLine.{Response, Host, Seen, answer, entry, unwrap_or_default}

module _ (host : Host) (program_id : ℕ) (loaded_program : Account) where
  -- The state after calls for these keys.
  unfoldable pub calls : List ℕ → Seen host → Seen host
  calls [] seen = seen
  calls (key ∷ keys) seen = calls keys (answer host program_id loaded_program key seen).1

  -- The closure has an account for the key.
  IsKnown : ℕ → Account → Seen host → Type 0
  IsKnown key account seen =
      ((key == program_id) ≡ true) × (account ≡ loaded_program)
      ⊎ ((key == program_id) ≡ false) × (entry key seen.accounts ≡ some account)

  known_answer :
      (key : ℕ) (account : Account) (seen : Seen host)
      → IsKnown key account seen
      → answer host program_id loaded_program key seen ≡ (some account, seen)
  unfolding IsKnown answer
  known_answer key account seen (inl (same, is)) = rw (same, is) refl
  known_answer key account seen (inr (differs, there)) = rw (differs, there) refl

  -- An answer is known afterwards, and what was known before stays known.
  answer-IsKnown :
      (key : ℕ) (seen : Seen host)
      → (account : Account) × ((answer host program_id loaded_program key seen).0 ≡ some account)
        × IsKnown key account (answer host program_id loaded_program key seen).1
  unfolding IsKnown answer entry
  answer-IsKnown key seen = elim (Bool-cases (key == program_id)) [
    | inl same ↦ rw same (loaded_program, refl, inl (refl, refl))
    | inr differs ↦ elim (Option-cases (entry key seen.accounts)) [
      | inr (account, there) ↦ rw (differs, there) (account, refl, inr (refl, there))
      | inl absent ↦
          let account = unwrap_or_default (host.get_account key seen.world).0 in
          rw (differs, absent) (account, refl, inr (refl, rw (==_refl key) refl))
    ]
  ]

  keeps_IsKnown :
      (key other : ℕ) (account : Account) (seen : Seen host)
      → IsKnown key account seen
      → IsKnown key account (answer host program_id loaded_program other seen).1
  unfolding IsKnown answer entry
  keeps_IsKnown key other account seen (inl known) = inl known
  keeps_IsKnown key other account seen (inr (differs, there)) =
      elim (Bool-cases (other == program_id)) [
        | inl same ↦ rw same (inr (differs, there))
        | inr foreign ↦ elim (Option-cases (entry other seen.accounts)) [
          | inr (account', there') ↦ rw (foreign, there') (inr (differs, there))
          | inl absent ↦ elim (Bool-cases (other == key)) [
            | inr distinct ↦ rw (foreign, absent) (inr (differs, rw distinct there))
            | inl equal ↦
                let wrong : none ≡ some account =
                  sym absent
                  ∙ ap (λ k. entry k seen.accounts) ((==_iff other key).0 equal)
                  ∙ there in
                cc
          ]
        ]
      ]

  calls-IsKnown :
      (keys : List ℕ) (key : ℕ) (account : Account) (seen : Seen host)
      → IsKnown key account seen
      → IsKnown key account (calls keys seen)
  unfolding calls
  calls-IsKnown [] key account seen known = known
  calls-IsKnown (other ∷ keys) key account seen known =
      calls-IsKnown keys key account (answer host program_id loaded_program other seen).1
        (keeps_IsKnown key other account seen known)

  -- Whatever the node answers, and however it changes: the closure has an account for every key, gives it
  -- again after any calls for any keys, and then changes nothing and does not ask the node.
  pub answer_again :
      (key : ℕ) (keys : List ℕ) (seen : Seen host)
      → let first = answer host program_id loaded_program key seen in
        let later = calls keys first.1 in
        (account : Account) × (first.0 ≡ some account)
        × (answer host program_id loaded_program key later ≡ (some account, later))
  answer_again key keys seen =
      let (account, gives, known) = answer-IsKnown key seen in
      (
        account,
        gives,
        known_answer key account (calls keys (answer host program_id loaded_program key seen).1) (
            calls-IsKnown keys key account (answer host program_id loaded_program key seen).1
              known),
      )

-- A node that answers a key in one way.
abbrev pub IsSteady : (host : Host) → (ℕ → Response) → Type 0
IsSteady host node = (key : ℕ) (world : host.World) → (host.get_account key world).0 ≡ node key

module _ (host : Host) (node : ℕ → Response) (program_id : ℕ) (loaded_program : Account) where
  -- What the closure answers.
  unfoldable pub answered : ℕ → Option Account
  answered key =
      if key == program_id then some loaded_program else some (unwrap_or_default (node key))

  -- What was seen is what the node says.
  unfoldable pub IsTrue : Seen host → Type 0
  IsTrue seen =
      (key : ℕ) (account : Account)
      → entry key seen.accounts ≡ some account
      → account ≡ unwrap_or_default (node key)

  pub answered-some : (key : ℕ) → (account : Account) × (answered key ≡ some account)
  unfolding answered
  answered-some key = elim (Bool-cases (key == program_id)) [
    | inl same ↦ (loaded_program, rw same refl)
    | inr differs ↦ (unwrap_or_default (node key), rw differs refl)
  ]

  -- With a node that answers a key in one way, the closure answers each key in one way, by the program for
  -- its key and else by the node's account, or the default one, and keeps only what the node says.
  pub answer-Answers :
      IsSteady host node → Answers (answer host program_id loaded_program) answered IsTrue
  unfolding answer answered IsTrue entry
  answer-Answers steady = record {
    answer = λ key seen good. elim (Bool-cases (key == program_id)) [
      | inl same ↦ rw same refl
      | inr differs ↦ elim (Option-cases (entry key seen.accounts)) [
        | inr (account, there) ↦ rw (differs, there) (ap some (good key account there))
        | inl absent ↦
            rw (differs, absent) (ap (λ r. some (unwrap_or_default r)) (steady key seen.world))
      ]
    ];
    keep = λ key seen good. elim (Bool-cases (key == program_id)) [
      | inl same ↦ rw same good
      | inr differs ↦ elim (Option-cases (entry key seen.accounts)) [
        | inr (account, there) ↦ rw (differs, there) good
        | inl absent ↦
            rw (differs, absent)
              (λ j account there. elim (Bool-cases (key == j)) [
                | inr distinct ↦ good j account (sym (rw distinct refl) ∙ there)
                | inl equal ↦
                    some_inj (sym there ∙ rw equal refl)
                    ∙ ap unwrap_or_default (steady key seen.world)
                    ∙ ap (λ k. unwrap_or_default (node k)) ((==_iff key j).0 equal)
              ])
      ]
    ];
  }
