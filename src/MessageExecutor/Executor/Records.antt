-- ===== src/MessageExecutor/Executor/Records.antt =====
-- What `process` makes of a loaded transaction.
use solana_bpf_simulator.Prelude.{
  ℕ, zero, suc, ◌≡◌, refl, ap, some_inj, ◌∙◌, Option, some, List, [], ◌∷◌, length, map, get_elem?,
  arith,
}
use solana_bpf_simulator.Prelude.Outcome.{Outcome, ok, err, panic}
use solana_bpf_simulator.InstructionExecutor.Types.{Account}
use solana_bpf_simulator.MessageExecutor.Types.{Ids, Message, Error}
use solana_bpf_simulator.MessageExecutor.Transaction.{Accounts, LoadedTransaction}
use solana_bpf_simulator.MessageExecutor.Transaction.Keys.{key_account}
use solana_bpf_simulator.MessageExecutor.Transaction.Owners.{get_elem?-append, get_elem?-lt}
use solana_bpf_simulator.MessageExecutor.Transaction.Extends.{All-get_elem?}
use solana_bpf_simulator.MessageExecutor.Transaction.Loads.{IsLoaded, get_elem?-total}
use solana_bpf_simulator.MessageExecutor.Runtime.{Runtime}
use solana_bpf_simulator.MessageExecutor.Executor.{
  Processed, Processor, ExecutionRecord, MessageExecutor, process,
}

-- In the processor of the runtime a context has as many accounts in the end as it was made of.
pub record KeepsAccounts (rt : Runtime) (proc : Processor rt) : Type 0 where
  pub deconstructs :
      (msg : Message) (indices : List (List ℕ)) (accounts : Accounts)
      (log : Option proc.LogCollector) (loaded p1 p2 : rt.LoadedProgramsForTxBatch)
      (features : rt.FeatureSet) (sysvars : proc.SysvarCache) (datas : List Account)
      → proc.deconstruct_without_keys (
          Processed.context (
            proc.process_message msg indices
              (proc.new_context accounts)
              log
              loaded
              p1
              p2
              features
              sysvars))
        ≡ ok datas
      → length datas ≡ length accounts

-- The entry of an association list under the key at an index.
entry_of :
    (front : Accounts) (i key : ℕ)
    → get_elem? (map (λ entry. entry.0) front) i ≡ some key
    → (account : Account) × (get_elem? front i ≡ some (key, account))
entry_of [] i key e = cc
entry_of ((k, account) ∷ front) zero key e = (account, ap (λ j. some (j, account)) (some_inj e))
entry_of (entry ∷ front) (suc i) key e = entry_of front i key e

module _ (ids : Ids) (rt : Runtime) (proc : Processor rt) (laws : KeepsAccounts rt proc)
    (lookup : ℕ → Option Account) (msg : Message) (loaded : LoadedTransaction) where
  -- Each key of the record stands at the index of the account that was loaded for it, and at this index
  -- there is an account after the run.
  abbrev pub HasEntries : ExecutionRecord → Type 0
  HasEntries r =
      (i key : ℕ)
      → get_elem? r.keys i ≡ some key
      → (before after : Account) × (key_account ids lookup msg key ≡ some before)
        × (get_elem? loaded.accounts i ≡ some (key, before))
        × (get_elem? r.datas i ≡ some after)

  module _ (slot : ℕ) (batch : rt.LoadedProgramsForTxBatch)
      (this : MessageExecutor ids rt proc) where
    abbrev fresh : rt.LoadedProgramsForTxBatch
    fresh = rt.new_batch slot (rt.environments this.loaded_programs)

    -- What the processor makes of the transaction, with the executor's log, features and sysvars, and with
    -- empty batches for the programs that are deployed meanwhile.
    abbrev pub done : Processed proc.TransactionContext proc.LogCollector
    done =
        proc.process_message msg loaded.program_indices (proc.new_context loaded.accounts)
          this.logger batch fresh fresh this.feature_set this.sysvar_cache

    abbrev logged : MessageExecutor ids rt proc
    logged = record this { logger = done.logger }

    -- A run that the processor fails is no record: its error comes back, and so does the error of a
    -- context that cannot be taken apart; with either the log is kept.
    pub data Records
        : Outcome
            (Error × MessageExecutor ids rt proc)
            (ExecutionRecord × MessageExecutor ids rt proc)
          → Type 0 where
      failed : {e : Error} → done.result ≡ err e → Records (err (e, logged))
      crashed : done.result ≡ panic → Records panic
      lost :
          {e : Error}
          → done.result ≡ ok tt
          → proc.deconstruct_without_keys done.context ≡ err e
          → Records (err (e, logged))
      lost_in_panic :
          done.result ≡ ok tt → proc.deconstruct_without_keys done.context ≡ panic → Records panic
      recorded :
          {r : ExecutionRecord}
          → done.result ≡ ok tt
          → proc.deconstruct_without_keys done.context ≡ ok r.datas
          → r.keys ≡ msg.account_keys
          → r.cu ≡ done.units
          → HasEntries r
          → Records (ok (r, logged))

    has_entries :
        (datas : List Account)
        → IsLoaded ids lookup msg loaded
        → proc.deconstruct_without_keys done.context ≡ ok datas
        → HasEntries (record { keys = msg.account_keys; datas = datas; cu = done.units })
    has_entries datas is left i key e =
        let (before, first) =
          entry_of is.front i key (ap (λ keys. get_elem? keys i) is.keys.0 ∙ e) in
        let there : get_elem? loaded.accounts i ≡ some (key, before) =
          ap (λ accounts. get_elem? accounts i) is.parts
          ∙ get_elem?-append is.front is.owners i first in
        let (after, behind) = get_elem?-total datas i (
          omega (
            arith,
            get_elem?-lt loaded.accounts i there,
            laws.deconstructs msg loaded.program_indices loaded.accounts this.logger batch fresh
                fresh this.feature_set this.sysvar_cache datas left,
          )) in
        (before, after, All-get_elem? _ is.front i (key, before) is.keys.1 first, there, behind)

    -- Where a context has as many accounts in the end as it was made of: processing a loaded
    -- transaction ends as the processor of the runtime does. Where the processor fails, or the
    -- context cannot be taken apart, the error comes back, and a panic is one of theirs. Otherwise
    -- there is a record, of the keys of the message, the accounts of the context and the units
    -- spent, where each key stands at the index at which the context was given the account that was
    -- loaded for this key, and at which there is an account in the end. In what comes back of the
    -- executor only the log is new, also with an error.
    pub process-Records :
        IsLoaded ids lookup msg loaded → Records (process ids rt proc slot msg loaded batch this)
    unfolding process
    process-Records is = go done.result refl
      where
        ends :
            (o : Outcome Error (List Account))
            → done.result ≡ ok tt
            → proc.deconstruct_without_keys done.context ≡ o
            → Records (process ids rt proc slot msg loaded batch this)
        ends panic well left = rw (process, well, left) (lost_in_panic well left)
        ends (err e) well left = rw (process, well, left) (lost well left)
        ends (ok datas) well left =
            rw (process, well, left) (recorded well left refl refl (has_entries datas is left))

        go :
            (o : Outcome Error (Unit {0}))
            → done.result ≡ o
            → Records (process ids rt proc slot msg loaded batch this)
        go panic ended = rw (process, ended) (crashed ended)
        go (err e) ended = rw (process, ended) (failed ended)
        go (ok u) ended = ends (proc.deconstruct_without_keys done.context) ended refl
