-- ===== src/MessageExecutor/Transaction/Loads.antt =====
-- What `load_transaction_accounts` returns for a message.
use solana_bpf_simulator.Prelude.{
  ℕ, zero, suc, ◌+◌, ◌*◌, ◌^◌, ◌≤◌, ◌<◌, ◌≡◌, refl, sym, ap, subst, ◌∙◌, ◌⊎◌, Option, some, List,
  [], ◌∷◌, ◌++◌, append_assoc, append-nil, length, length-append, length-map, get_elem?, drop,
  drop-append, All, Any, inl, inr, arith,
}
use solana_bpf_simulator.Prelude.Method.{pure}
use solana_bpf_simulator.Prelude.Post.{Post, bind-Post, imp-Post}
use solana_bpf_simulator.InstructionExecutor.Types.{Account}
use solana_bpf_simulator.MessageExecutor.Types.{Ids, Message, Error}
use solana_bpf_simulator.MessageExecutor.Loader.{AccountLoader, Answers}
use solana_bpf_simulator.MessageExecutor.Transaction.{
  Accounts, LoadedTransaction, owner_chain, load_keys, program_loop, load_transaction_accounts,
}
use solana_bpf_simulator.MessageExecutor.Transaction.Keys.{
  GoodLoader, AreLoaded, Loads, Misses, load_keys-Post,
}
use solana_bpf_simulator.MessageExecutor.Transaction.Owners.{
  IsChain, IsChain-append, get_elem?-append,
}
use solana_bpf_simulator.MessageExecutor.Transaction.Extends.{
  AreFound, Extends, Extends-trans, Extends-length,
}
use solana_bpf_simulator.MessageExecutor.Transaction.Chains.{Resolved, Unresolved, instruction-Post}

pub get_elem?-total {ℓ} :
    {A : Type ℓ} (xs : List A) (i : ℕ) → i < length xs → (x : A) × (get_elem? xs i ≡ some x)
get_elem?-total [] i h = elim h [ ]
get_elem?-total (x ∷ xs) zero h = (x, refl)
get_elem?-total (x ∷ xs) (suc i) h = get_elem?-total xs i (omega arith)

All-drop-length : {A : Type 0} (P : A → Type 0) (xs : List A) → All P (drop (length xs) xs)
All-drop-length P [] = tt
All-drop-length P (x ∷ xs) = All-drop-length P xs

-- One chain, of at most five programs, for each instruction.
abbrev pub AreChains : Ids → Accounts → List ℕ → List (List ℕ) → Type 0
AreChains ids accounts [] [] = Unit {0}
AreChains ids accounts [] (_ ∷ _) = ⊥
AreChains ids accounts (_ ∷ _) [] = ⊥
AreChains ids accounts (index ∷ indices) (chain ∷ chains) =
    IsChain ids accounts index chain × (length chain ≤ 5) × AreChains ids accounts indices chains

module _ (ids : Ids) (lookup : ℕ → Option Account) (front : Accounts) where
  -- What the loop over the instructions makes of the accounts and of the chains before it.
  Looped : Accounts → List ℕ → List (List ℕ) → Accounts × List (List ℕ) → Type 0
  Looped accounts indices before (extended, after) =
      Extends lookup (length front) accounts (5 * length indices) extended
      × ((chains : List (List ℕ)) × (after ≡ before ++ chains)
          × AreChains ids extended indices chains)

  abbrev pub Stopped : List ℕ → Error → Type 0
  Stopped indices e = Any (λ index. Unresolved ids lookup front e index) indices

module _ (ids : Ids) (lookup : ℕ → Option Account) (msg : Message) where
  -- A loaded transaction: the account of each key in the order of the keys, then the owners of programs,
  -- and for each instruction the chain from its program up to the native loader.
  pub record IsLoaded (loaded : LoadedTransaction) : Type 0 where
    pub front : Accounts
    pub owners : Accounts
    pub parts : loaded.accounts ≡ front ++ owners
    pub keys : AreLoaded ids lookup msg msg.account_keys front
    pub found : All (λ entry. lookup entry.0 ≡ some entry.1) owners
    pub chains : AreChains ids loaded.accounts msg.program_id_indices loaded.program_indices

  -- Why a transaction is not loaded: a key without an account, or an instruction whose program has an
  -- owner without an account or more owners than rounds.
  unfoldable pub FailsToLoad : Error → Type 0
  FailsToLoad e =
      Misses ids lookup msg msg.account_keys e
      ⊎ ((front : Accounts) × AreLoaded ids lookup msg msg.account_keys front
          × Stopped ids lookup front msg.program_id_indices e)

module _ (ids : Ids) (Source FeatureSet LoadedPrograms : Type 0)
    (g : ℕ → Source → Option Account × Source) (lookup : ℕ → Option Account)
    (IsGood : Source → Type 0) (answers : Answers g lookup IsGood) where
  program_loop-Post :
      (front : Accounts) (indices : List ℕ) (accounts owners : Accounts) (before : List (List ℕ))
      (loader : AccountLoader Source FeatureSet LoadedPrograms)
      → IsGood loader.source
      → accounts ≡ front ++ owners
      → length accounts + 5 * length indices ≤ 2 ^ 16
      → AreFound lookup (length front) accounts
      → All (λ index. index < length front) indices
      → Post
          (GoodLoader IsGood)
          (Looped ids lookup front accounts indices before)
          (Stopped ids lookup front indices)
          (program_loop ids Source FeatureSet LoadedPrograms g
            (length front)
            indices
            accounts
            before
            loader)
  unfolding program_loop Looped
  program_loop-Post front [] accounts owners before loader good split small found within =
      unfold Post in
      (
        (
          record {
            added = [];
            split = sym (append-nil accounts);
            few = omega arith;
            found = found;
          },
          ([], sym (append-nil before), tt),
        ),
        good,
      )
  program_loop-Post front (index ∷ indices) accounts owners before loader good split small found
        within =
      let (entry, first) = get_elem?-total front index within.0 in
      bind-Post (GoodLoader IsGood) (Resolved ids lookup (length front) accounts index)
        (λ e. Unresolved ids lookup front e index)
        (Looped ids lookup front accounts (index ∷ indices) before)
        (Stopped ids lookup front (index ∷ indices))
        (owner_chain ids Source FeatureSet LoadedPrograms g (length front) 5 accounts index []) _
        loader
        (instruction-Post ids Source FeatureSet LoadedPrograms g lookup IsGood answers
          (length front) front accounts index loader good
          (omega (arith, ap length split, length-append front owners)) (omega arith) found entry
          first (rw split (get_elem?-append front owners index first)))
        (λ e q. inl q)
        (λ r t p good'.
          imp-Post (GoodLoader IsGood) (Looped ids lookup front r.0 indices (before ++ r.1 ∷ []))
            (Looped ids lookup front accounts (index ∷ indices) before)
            (Stopped ids lookup front indices) (Stopped ids lookup front (index ∷ indices)) _
            (program_loop-Post front indices r.0 (owners ++ p.2.added) (before ++ r.1 ∷ []) t good'
              (p.2.split ∙ ap (λ l. l ++ p.2.added) split ∙ append_assoc front owners p.2.added)
              (omega (arith, Extends-length lookup (length front) accounts r.0 5 p.2)) p.2.found
              within.1)
            (λ w q.
              let (more, (chains, out, are)) = q in
              (
                subst (λ n. Extends lookup (length front) accounts n w.0)
                    {x = 5 + 5 * length indices} {y = 5 * suc (length indices)} (omega arith)
                    (Extends-trans lookup (length front) accounts r.0 w.0 5 (5 * length indices) p.2
                      more),
                (
                  r.1 ∷ chains,
                  out ∙ append_assoc before (r.1 ∷ []) chains,
                  (rw more.split (IsChain-append ids r.0 more.added p.0), p.1, are),
                ),
              ))
            (λ e q. inr q))

  -- Where the client answers every key in one way and its state is good, the programs of the
  -- instructions are among the keys, and the accounts fit the 16 bits of an index: the call returns a
  -- loaded transaction, or an error for the reason that it names, and never panics.
  pub load_transaction_accounts-Post :
      (msg : Message) (loader : AccountLoader Source FeatureSet LoadedPrograms)
      → IsGood loader.source
      → All (λ index. index < length msg.account_keys) msg.program_id_indices
      → length msg.account_keys + 5 * length msg.program_id_indices ≤ 2 ^ 16
      → Post
          (GoodLoader IsGood)
          (IsLoaded ids lookup msg)
          (FailsToLoad ids lookup msg)
          (load_transaction_accounts ids Source FeatureSet LoadedPrograms g msg loader)
  unfolding load_transaction_accounts FailsToLoad Looped
  load_transaction_accounts-Post msg loader good within small =
      bind-Post (GoodLoader IsGood) (Loads ids lookup msg msg.account_keys [])
        (Misses ids lookup msg msg.account_keys) (IsLoaded ids lookup msg)
        (FailsToLoad ids lookup msg)
        (load_keys ids Source FeatureSet LoadedPrograms g msg msg.account_keys []) _ loader
        (load_keys-Post ids Source FeatureSet LoadedPrograms g lookup IsGood answers msg
          msg.account_keys [] loader good)
        (λ e q. inl q)
        (λ front t p good'.
          let loaded : AreLoaded ids lookup msg msg.account_keys front =
            subst (AreLoaded ids lookup msg msg.account_keys) (sym p.1) p.2 in
          let count : length front ≡ length msg.account_keys =
            sym (length-map front (λ entry. entry.0)) ∙ ap length loaded.0 in
          bind-Post (GoodLoader IsGood) (Looped ids lookup front front msg.program_id_indices [])
            (Stopped ids lookup front msg.program_id_indices) (IsLoaded ids lookup msg)
            (FailsToLoad ids lookup msg)
            (program_loop ids Source FeatureSet LoadedPrograms g (length front)
              msg.program_id_indices front [])
            (λ r. pure (record { accounts = r.0; program_indices = r.1 })) t
            (program_loop-Post front msg.program_id_indices front [] [] t good'
              (sym (append-nil front)) (omega arith) (All-drop-length _ front) (rw count within))
            (λ e q. inr (front, loaded, q))
            (λ r t' q good''.
              unfold Post in
              (
                record {
                  front = front;
                  owners = q.0.added;
                  parts = q.0.split;
                  keys = loaded;
                  found =
                      subst (All (λ entry. lookup entry.0 ≡ some entry.1))
                        (ap (drop (length front)) q.0.split
                          ∙ drop-append front q.0.added (length front) refl)
                        q.0.found;
                  chains = subst (AreChains ids r.0 msg.program_id_indices) (sym q.1.1) q.1.2;
                },
                good'',
              )))
