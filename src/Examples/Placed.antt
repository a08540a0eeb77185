-- ===== src/Examples/Placed.antt =====
-- examples/raw/examples/check.rs: the accounts that are given, and what becomes of each for the program.
use solana_bpf_simulator.Prelude.{
  ℕ, suc, ◌+◌, ◌^◌, ◌<◌, ◌≡◌, refl, sym, ap, ◌∙◌, subst, false, some, List, [], ◌∷◌, ◌++◌,
  append_assoc, append-nil, map, length, length-append, get_elem?, set, replicate, arith, lengths,
}
use solana_bpf_simulator.Prelude.Slices.{get_elem?_middle}
use solana_bpf_simulator.InstructionExecutor.Types.{Sdk, Account}
use solana_bpf_simulator.InstructionExecutor.View.{Entry, AreEntries, padded}
use solana_bpf_simulator.InstructionExecutor.Refinement.Update.{new_entry}
use solana_bpf_simulator.CommandLine.{AccountMeta}

-- The numbers of an account are in the range of their types.
pub record IsInRange (account : Account) : Type 0 where
  pub owner : account.owner < 256 ^ 32
  pub lamports : account.lamports < 256 ^ 8
  pub rent_epoch : account.rent_epoch < 256 ^ 8

abbrev pub Given : Type 0
Given = AccountMeta × Account

abbrev pub data_len : Given → ℕ
data_len (meta, account) = length account.data_bytes

-- What an account that is given becomes for the program: none is executable.
abbrev pub placed : Given → Entry
placed (meta, account) = record {
  key = meta.pubkey;
  account = record account { executable = false };
  is_signer = meta.is_signer;
  is_writable = meta.is_writable;
}

-- An account that fills its space needs no zeros.
pub new_entry-placed :
    (meta : AccountMeta) (account : Account)
    → new_entry
        (length account.data_bytes)
        meta.pubkey
        account
        meta.is_signer
        meta.is_writable
        false
      ≡ placed (meta, account)
new_entry-placed meta account = ap with_data whole
  where
    with_data : List ℕ → Entry
    with_data l = record (placed (meta, account)) {
      account = record account { data_bytes = l; executable = false };
    }

    whole : (padded (length account.data_bytes) account).data_bytes ≡ account.data_bytes
    whole =
        ap (λ n. account.data_bytes ++ replicate n 0) {y = 0} (omega arith)
        ∙ append-nil account.data_bytes

-- The entries from `i` on, one after another.
abbrev pub set_all : ℕ → List Given → List Entry → List Entry
set_all i [] entries = entries
set_all i (x ∷ xs) entries = set_all (i + 1) xs (set entries i (placed x))

set_middle :
    (done rest : List Entry) (x y : Entry)
    → set (done ++ (x ∷ rest)) (length done) y ≡ done ++ (y ∷ rest)
set_middle [] rest x y = refl
set_middle (d ∷ done) rest x y = ap (λ l. d ∷ l) (set_middle done rest x y)

pub set_all_lem :
    (i : ℕ) (xs : List Given) (done rest : List Entry)
    → i ≡ length done
    → length rest ≡ length xs
    → set_all i xs (done ++ rest) ≡ done ++ map placed xs
set_all_lem i [] done [] e h = refl
set_all_lem i [] done (r ∷ rest) e h = absurd (omega arith)
set_all_lem i (x ∷ xs) done [] e h = absurd (omega arith)
set_all_lem i (x ∷ xs) done (r ∷ rest) e h =
    ap (set_all (i + 1) xs) (
      ap (λ n. set (done ++ (r ∷ rest)) n (placed x)) e
      ∙ set_middle done rest r (placed x)
      ∙ sym (append_assoc done (placed x ∷ []) rest))
    ∙ set_all_lem (i + 1) xs (done ++ (placed x ∷ [])) rest
        (omega (lengths, length-append done (placed x ∷ []))) (omega arith)
    ∙ append_assoc done (placed x ∷ []) (map placed xs)

pub length-entries :
    (sdk : Sdk) (sizes : List ℕ) (xs : List Entry)
    → AreEntries sdk sizes xs
    → length xs ≡ length sizes
length-entries sdk [] [] h = refl
length-entries sdk [] (x ∷ xs) h = elim h [ ]
length-entries sdk (s ∷ sizes) [] h = elim h [ ]
length-entries sdk (s ∷ sizes) (x ∷ xs) (_, h) = ap suc (length-entries sdk sizes xs h)

pub length-map : (xs : List Given) → length (map data_len xs) ≡ length xs
length-map [] = refl
length-map (x ∷ xs) = ap suc (length-map xs)

-- The sizes from account `i` on are those of the data.
abbrev pub Fitting : List ℕ → ℕ → List Given → Type 0
Fitting sizes i [] = Unit {0}
Fitting sizes i (x ∷ xs) = (get_elem? sizes i ≡ some (data_len x)) × Fitting sizes (i + 1) xs

-- The sizes of the data of all the accounts fit them.
pub Fitting-all :
    (pre : List ℕ) (i : ℕ) (xs : List Given)
    → i ≡ length pre
    → Fitting (pre ++ map data_len xs) i xs
Fitting-all pre i [] e = tt
Fitting-all pre i (x ∷ xs) e = (
  get_elem?_middle i pre (map data_len xs) (data_len x) e,
  subst (λ l. Fitting l (i + 1) xs) (append_assoc pre (data_len x ∷ []) (map data_len xs))
      (Fitting-all (pre ++ (data_len x ∷ [])) (i + 1) xs
        (omega (arith, length-append pre (data_len x ∷ [])))),
)
