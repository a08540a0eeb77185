-- ===== src/CommandLine/Load.antt =====
-- src/main.rs: the transaction of `Simulate::run` and its programs, which are loaded with the closure.
use solana_bpf_simulator.Prelude.{
  ℕ, zero, suc, ◌+◌, ◌*◌, ◌^◌, ◌≤◌, ◌<◌, ◌≡◌, ◌≢◌, refl, sym, ◌∙◌, Option, none, some, List, [],
  ◌∷◌, length, All, Any, ◌==◌, Bool-cases, inl, inr,
}
use solana_bpf_simulator.Prelude.Outcome.{Outcome, ok, err, panic}
use solana_bpf_simulator.Prelude.Method.{◌>>=◌}
use solana_bpf_simulator.Prelude.Post.{Post}
use solana_bpf_simulator.InstructionExecutor.Types.{Account}
use solana_bpf_simulator.MessageExecutor.Types.{Ids, Message, Error, call_chain_too_deep}
use solana_bpf_simulator.MessageExecutor.Loader.{Answers}
use solana_bpf_simulator.MessageExecutor.Transaction.{
  Accounts, construct_instructions_account, LoadedTransaction, load_transaction_accounts,
}
use solana_bpf_simulator.MessageExecutor.Transaction.Keys.{GoodLoader, key_account, AreLoaded}
use solana_bpf_simulator.MessageExecutor.Transaction.Owners.{native, missing, ending}
use solana_bpf_simulator.MessageExecutor.Transaction.Chains.{Unresolved}
use solana_bpf_simulator.MessageExecutor.Transaction.Loads.{
  Stopped, IsLoaded, FailsToLoad, load_transaction_accounts-Post,
}
use solana_bpf_simulator.MessageExecutor.Slots.{working_slot}
use solana_bpf_simulator.MessageExecutor.Runtime.{Runtime}
use solana_bpf_simulator.MessageExecutor.Executor.{Processor}
use solana_bpf_simulator.MessageExecutor.Programs.{replenish_program_cache}
use solana_bpf_simulator.MessageExecutor.Programs.Replenish.{
  IsSupplied, Replenishes, replenish_program_cache-Replenishes,
}
use solana_bpf_simulator.CommandLine.{Response, Host, Seen, SbfLoader, answer, load}
use solana_bpf_simulator.CommandLine.Source.{
  IsSteady, answered, IsTrue, answered-some, answer-Answers,
}

Any-absurd : {A : Type 0} (P : A → Type 0) (xs : List A) → ((x : A) → P x → ⊥) → Any P xs → ⊥
Any-absurd P [] no_such h = h
Any-absurd P (x ∷ xs) no_such (inl p) = no_such x p
Any-absurd P (x ∷ xs) no_such (inr h) = Any-absurd P xs no_such h

module _ (ids : Ids) (lookup : ℕ → Option Account)
    (total : (key : ℕ) → (account : Account) × (lookup key ≡ some account)) where
  total_ne : (key : ℕ) → lookup key ≢ none
  total_ne key absent = let (account, there) = total key in cc

  -- A client that has every account: no owner is missing.
  ending_ne : (rounds : ℕ) (program : Account) → ending ids lookup rounds program ≢ missing
  unfolding ending
  ending_ne zero program e = cc
  ending_ne (suc rounds) program e = elim (Bool-cases (program.owner == ids.native_loader)) [
    | inl own ↦ let wrong : native ≡ missing = sym (rw own refl) ∙ e in cc
    | inr foreign ↦
        let (owner, there) = total program.owner in
        ending_ne rounds owner (sym (rw (ending, foreign, there) refl) ∙ e)
  ]

  -- An instruction whose program has more owners than rounds.
  abbrev pub IsDeep : Accounts → ℕ → Type 0
  IsDeep front index = Unresolved ids lookup front call_chain_too_deep index

  Stopped-IsDeep :
      (front : Accounts) (indices : List ℕ) (e : Error)
      → Stopped ids lookup front indices e
      → (e ≡ call_chain_too_deep) × Any (λ index. IsDeep front index) indices
  Stopped-IsDeep front [] e never = absurd never
  Stopped-IsDeep front (index ∷ indices) e (inr later) =
      let (is, there) = Stopped-IsDeep front indices e later in (is, inr there)
  Stopped-IsDeep front (index ∷ indices) e (inl (key, program, first, other, inl lost)) =
      absurd (ending_ne 5 program lost.1)
  Stopped-IsDeep front (index ∷ indices) e (inl (key, program, first, other, inr far)) =
      (far.0, inl (key, program, first, other, inr (refl, far.1)))

  key_account_ne : (msg : Message) (key : ℕ) → key_account ids lookup msg key ≢ none
  unfolding key_account
  key_account_ne msg key e = elim (Bool-cases (key == ids.instructions_sysvar)) [
    | inl same ↦
        let wrong : some (construct_instructions_account ids msg) ≡ none = sym (rw same refl) ∙ e in
        cc
    | inr other ↦ total_ne key (sym (rw other refl) ∙ e)
  ]

  -- Why a transaction of `Simulate::run` is not loaded.
  abbrev pub TooDeep : Message → Error → Type 0
  TooDeep msg e =
      (e ≡ call_chain_too_deep)
      × ((front : Accounts) × AreLoaded ids lookup msg msg.account_keys front
          × Any (λ index. IsDeep front index) msg.program_id_indices)

  FailsToLoad-TooDeep : (msg : Message) (e : Error) → FailsToLoad ids lookup msg e → TooDeep msg e
  unfolding FailsToLoad
  FailsToLoad-TooDeep msg e (inl misses) =
      absurd (Any-absurd _ msg.account_keys (key_account_ne msg) misses.1)
  FailsToLoad-TooDeep msg e (inr (front, loaded, stopped)) =
      let (is, there) = Stopped-IsDeep front msg.program_id_indices e stopped in
      (is, (front, loaded, there))

module _ (ids : Ids) (rt : Runtime) (proc : Processor rt) (host : Host) (node : ℕ → Response)
    (steady : IsSteady host node) (program_id : ℕ) (loaded_program : Account) where
  abbrev lookup : ℕ → Option Account
  lookup = answered host node program_id loaded_program

  module _ (slot : ℕ) (msg : Message) (start : SbfLoader ids rt proc host) where
    -- Both loads succeed, the second from where the first has left the loader; or a chain of owners is
    -- too deep. Never a panic, and no other error.
    unfoldable pub LoadsAll :
        Outcome
          (Error × SbfLoader ids rt proc host)
          ((LoadedTransaction × rt.LoadedProgramsForTxBatch) × SbfLoader ids rt proc host)
        → Type 0
    LoadsAll (ok ((transaction, batch), left)) =
        (middle : SbfLoader ids rt proc host) × (load_transaction_accounts ids (Seen host)
            rt.FeatureSet rt.LoadedPrograms (answer host program_id loaded_program) msg start
          ≡ ok (transaction, middle))
        × (replenish_program_cache ids rt (Seen host) (answer host program_id loaded_program)
              (working_slot rt.slots_per_epoch slot) (msg ∷ []) middle
            ≡ ok (batch, left))
        × IsLoaded ids lookup msg transaction
        × IsSupplied ids rt (Seen host) (answer host program_id loaded_program) lookup
            (IsTrue host node program_id loaded_program)
            (answer-Answers host node program_id loaded_program steady)
            (working_slot rt.slots_per_epoch slot) (msg ∷ []) middle batch left
    LoadsAll (err (e, left)) =
        TooDeep ids lookup (answered-some host node program_id loaded_program) msg e
    LoadsAll panic = ⊥

    -- With a node that answers a key in one way, a closure that has kept only what the node says,
    -- programs of instructions among the keys, and accounts that fit the 16 bits of an index: the
    -- transaction and its programs are loaded, or an instruction has a program with more owners than
    -- rounds. There is no panic and no other error, since the closure has an account for every key.
    pub load-LoadsAll :
        IsTrue host node program_id loaded_program start.source
        → All (λ index. index < length msg.account_keys) msg.program_id_indices
        → length msg.account_keys + 5 * length msg.program_id_indices ≤ 2 ^ 16
        → LoadsAll (load ids rt proc host program_id loaded_program slot msg start)
    unfolding LoadsAll load Post Replenishes
    load-LoadsAll true_start within small =
        first
          (load_transaction_accounts ids (Seen host) rt.FeatureSet rt.LoadedPrograms g msg start)
          refl
          (load_transaction_accounts-Post ids (Seen host) rt.FeatureSet rt.LoadedPrograms g lookup
            IsGood answers msg start true_start within small)
      where
        g : ℕ → Seen host → Option Account × Seen host
        g = answer host program_id loaded_program

        IsGood : Seen host → Type 0
        IsGood = IsTrue host node program_id loaded_program

        answers : Answers g lookup IsGood
        answers = answer-Answers host node program_id loaded_program steady

        second :
            (transaction : LoadedTransaction) (middle : SbfLoader ids rt proc host)
            (o : Outcome
              (Error × SbfLoader ids rt proc host)
              (rt.LoadedProgramsForTxBatch × SbfLoader ids rt proc host))
            → load_transaction_accounts ids (Seen host) rt.FeatureSet rt.LoadedPrograms g msg start
              ≡ ok (transaction, middle)
            → replenish_program_cache ids rt
                (Seen host)
                g
                (working_slot rt.slots_per_epoch slot)
                (msg ∷ [])
                middle
              ≡ o
            → IsLoaded ids lookup msg transaction
            → Replenishes ids rt
                (Seen host)
                g
                lookup
                IsGood
                answers
                (working_slot rt.slots_per_epoch slot)
                (msg ∷ [])
                middle
                o
            → LoadsAll (elim o [
              | ok (batch, left) ↦ ok ((transaction, batch), left)
              | err x ↦ err x
              | panic ↦ panic
            ])
        second transaction middle (ok (batch, left)) eq eq' loaded (supplied, good) =
            (middle, eq, eq', loaded, supplied)
        second transaction middle (err (e, left)) eq eq' loaded (absent, good) = absurd (
            Any-absurd _ (msg ∷ [])
              (λ m.
                Any-absurd _ m.account_keys
                  (total_ne ids lookup (answered-some host node program_id loaded_program)))
              absent.1)
        second transaction middle panic eq eq' loaded never = absurd never

        first :
            (o : Outcome
              (Error × SbfLoader ids rt proc host)
              (LoadedTransaction × SbfLoader ids rt proc host))
            → load_transaction_accounts ids (Seen host) rt.FeatureSet rt.LoadedPrograms g msg start
              ≡ o
            → Post (GoodLoader IsGood) (IsLoaded ids lookup msg) (FailsToLoad ids lookup msg) o
            → LoadsAll (load ids rt proc host program_id loaded_program slot msg start)
        first (ok (transaction, middle)) eq (loaded, good) =
            rw (◌>>=◌, eq)
              (second transaction middle
                (replenish_program_cache ids rt (Seen host) g (working_slot rt.slots_per_epoch slot)
                  (msg ∷ []) middle)
                eq refl loaded
                (replenish_program_cache-Replenishes ids rt (Seen host) g lookup IsGood answers
                  (working_slot rt.slots_per_epoch slot) (msg ∷ []) middle good))
        first (err (e, left)) eq (fails, good) =
            rw (◌>>=◌, eq)
              (FailsToLoad-TooDeep ids lookup (answered-some host node program_id loaded_program)
                msg e fails)
        first panic eq never = absurd never
