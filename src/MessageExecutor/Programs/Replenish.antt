-- ===== src/MessageExecutor/Programs/Replenish.antt =====
-- What `replenish_program_cache` makes of messages.
use solana_bpf_simulator.Prelude.{
  ℕ, ◌≡◌, refl, sym, subst, ap, ◌⊎◌, ◌↔◌, inl, inr, Option, List, [], ◌∷◌, Any,
}
use solana_bpf_simulator.Prelude.Outcome.{Outcome, ok, err, panic}
use solana_bpf_simulator.Prelude.Post.{bind_elim}
use solana_bpf_simulator.InstructionExecutor.Types.{Account}
use solana_bpf_simulator.MessageExecutor.Types.{Ids, Message, Error}
use solana_bpf_simulator.MessageExecutor.Slots.{WorkingSlot}
use solana_bpf_simulator.MessageExecutor.Loader.{AccountLoader, Answers}
use solana_bpf_simulator.MessageExecutor.Runtime.{Missing, Runtime}
use solana_bpf_simulator.MessageExecutor.Needed.{add_messages, add_builtins}
use solana_bpf_simulator.MessageExecutor.Needed.Put.{HasKey}
use solana_bpf_simulator.MessageExecutor.Needed.Sorted.{
  IsMissing, add_builtins-IsMissing, add_builtins-HasKey,
}
use solana_bpf_simulator.MessageExecutor.Needed.Messages.{
  IsProgram, Chosen, Good, Needs, AbsentAccount, add_messages-Post,
}
use solana_bpf_simulator.MessageExecutor.Programs.{
  load_missing, replenish_loaded, supply, replenish_program_cache,
}
use solana_bpf_simulator.MessageExecutor.Programs.Finds.{
  Same, Never, AreProgramsOf, load_missing-Post,
}

all_keys : {W A B M : Type 0} → W ↔ (A ⊎ B) → B ↔ (M ⊎ ⊥) → W ↔ (A ⊎ M)
all_keys (to, from) (to', from') = (
  (λ w. elim (to w) [
    | inl a ↦ inl a
    | inr b ↦ elim (to' b) [ inl m ↦ inr m | inr never ↦ absurd never ]
  ]),
  (λ h. elim h [ inl a ↦ from (inl a) | inr m ↦ from (inr (from' (inl m))) ]),
)

module _ (rt : Runtime) where
  -- Programs put into the cache one after another, and the entries that the cache returns into the
  -- batch.
  unfoldable pub filled :
      List (ℕ × rt.LoadedProgram)
      → rt.LoadedProgramsForTxBatch
      → rt.LoadedPrograms
      → rt.LoadedProgramsForTxBatch × rt.LoadedPrograms
  filled [] batch cache = (batch, cache)
  filled ((key, loaded) ∷ programs) batch cache =
      let (entry, cache') = rt.replenish key loaded cache in
      filled programs (rt.replenish_batch key entry batch) cache'

module _ (ids : Ids) (rt : Runtime) (Source : Type 0) (g : ℕ → Source → Option Account × Source)
    (lookup : ℕ → Option Account) (IsGood : Source → Type 0)
    (answers : Answers g lookup IsGood) where
  replenish_loaded_lem :
      (programs : List (ℕ × rt.LoadedProgram)) (batch : rt.LoadedProgramsForTxBatch)
      (loader : AccountLoader Source rt.FeatureSet rt.LoadedPrograms)
      → replenish_loaded ids rt Source g programs batch loader
        ≡ ok (
          (filled rt programs batch loader.loaded_programs_cache).0,
          record loader {
            loaded_programs_cache = (filled rt programs batch loader.loaded_programs_cache).1;
          },
        )
  unfolding replenish_loaded filled
  replenish_loaded_lem [] batch loader = refl
  replenish_loaded_lem ((key, loaded) ∷ programs) batch loader =
      replenish_loaded_lem programs
        (rt.replenish_batch key (rt.replenish key loaded loader.loaded_programs_cache).0 batch)
        (record loader {
          loaded_programs_cache = (rt.replenish key loaded loader.loaded_programs_cache).1;
        })

  module _ (s : WorkingSlot) (messages : List Message)
      (start : AccountLoader Source rt.FeatureSet rt.LoadedPrograms) where
    -- The list of programs that messages and the runtime need: sorted by distinct keys, which are those
    -- of the programs among the keys of the messages, and those of the builtin programs.
    pub record IsNeeded (missing : Missing rt.MatchCriteria) : Type 0 where
      pub shape : IsMissing rt missing
      pub keys :
          (j : ℕ)
          → HasKey j missing ↔ (
              Any (λ key. key ≡ j) start.builtin_programs
              ⊎ Any
                  (λ msg. Chosen (IsProgram lookup start.program_owners) j msg.account_keys)
                  messages)

    -- What `extract` leaves missing, the batch that it begins, and the cache behind it.
    abbrev pub extracted :
        Missing rt.MatchCriteria
        → Missing rt.MatchCriteria × rt.LoadedProgramsForTxBatch × rt.LoadedPrograms
    extracted missing = rt.extract s (
      missing,
      rt.new_batch s.current_slot (rt.environments start.loaded_programs_cache),
      start.loaded_programs_cache,
    )

    -- The batch has what the cache had of the needed programs, and the others from their accounts; the
    -- cache is filled by the same programs, in the same order.
    pub record IsSupplied (batch : rt.LoadedProgramsForTxBatch)
        (loader : AccountLoader Source rt.FeatureSet rt.LoadedPrograms) : Type 0 where
      pub missing : Missing rt.MatchCriteria
      pub programs : List (ℕ × rt.LoadedProgram)
      pub needed : IsNeeded missing
      pub loaded :
          AreProgramsOf ids rt Source g lookup IsGood answers
            (record start { loaded_programs_cache = (extracted missing).2 })
            s.current_slot
            (extracted missing).0
            programs
      pub result :
          (batch, loader.loaded_programs_cache)
          ≡ filled rt programs (extracted missing).1 (extracted missing).2

    -- A batch that is supplied, or the error of a key that has no account; never a panic.
    unfoldable pub Replenishes :
        Outcome
          (Error × AccountLoader Source rt.FeatureSet rt.LoadedPrograms)
          (rt.LoadedProgramsForTxBatch × AccountLoader Source rt.FeatureSet rt.LoadedPrograms)
        → Type 0
    Replenishes (ok (batch, loader)) = IsSupplied batch loader × IsGood loader.source
    Replenishes (err (e, loader)) =
        AbsentAccount rt Source g lookup IsGood answers start messages e × IsGood loader.source
    Replenishes panic = ⊥

    supply-Replenishes :
        (missing : Missing rt.MatchCriteria) (source : Source)
        → IsNeeded missing
        → IsGood source
        → Replenishes (supply ids rt Source g s missing (record start { source = source }))
    unfolding supply Replenishes
    supply-Replenishes missing source needed good =
        bind_elim (Same ids rt Source g lookup IsGood answers cached)
          (AreProgramsOf ids rt Source g lookup IsGood answers cached s.current_slot
            (extracted missing).0)
          Never Replenishes (load_missing ids rt Source g s.current_slot (extracted missing).0)
          (λ programs. replenish_loaded ids rt Source g programs (extracted missing).1)
          (record cached { source = source })
          (load_missing-Post ids rt Source g lookup IsGood answers cached s.current_slot
            (extracted missing).0 (record cached { source = source }) (good, refl))
          (λ programs t loaded same.
            let cache : t.loaded_programs_cache ≡ (extracted missing).2 =
              ap (λ l. l.loaded_programs_cache) same.1 in
            rw (replenish_loaded_lem programs (extracted missing).1 t) (
              record {
                missing = missing;
                programs = programs;
                needed = needed;
                loaded = loaded;
                result = ap (filled rt programs (extracted missing).1) cache;
              },
              same.0,
            ))
          (λ e t never same. absurd never)
      where
        cached : AccountLoader Source rt.FeatureSet rt.LoadedPrograms
        cached = record start { loaded_programs_cache = (extracted missing).2 }

    -- Where the client answers every key in one way, and its state is good: the call supplies a batch with
    -- the programs that the messages and the runtime need, from the cache or else from their accounts, or
    -- fails because a key of a message has no account. It never panics.
    pub replenish_program_cache-Replenishes :
        IsGood start.source → Replenishes (replenish_program_cache ids rt Source g s messages start)
    unfolding replenish_program_cache Replenishes
    replenish_program_cache-Replenishes good =
        bind_elim (Good rt Source g lookup IsGood answers start)
          (Needs rt Source g lookup IsGood answers start messages [])
          (AbsentAccount rt Source g lookup IsGood answers start messages) Replenishes
          (add_messages rt Source g messages []) _ start
          (add_messages-Post rt Source g lookup IsGood answers start messages [] start (good, refl)
            (record { sorted = tt; plain = tt }))
          (λ needed t p same.
            subst
              (λ l.
                Replenishes
                  (supply ids rt Source g s (add_builtins rt l.builtin_programs needed) l))
              (sym same.1)
              (supply-Replenishes (add_builtins rt start.builtin_programs needed) t.source
                (record {
                  shape = add_builtins-IsMissing rt start.builtin_programs needed p.0;
                  keys = λ j.
                      all_keys (add_builtins-HasKey rt start.builtin_programs j needed) (p.1 j);
                })
                same.0))
          (λ e t q same. (q, same.0))
