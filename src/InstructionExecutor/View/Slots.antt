-- ===== src/InstructionExecutor/View/Slots.antt =====
-- The slots of a view, split at one account.
use mathlib.Core.Path.{ap₂}
use solana_bpf_simulator.Prelude.{
  ℕ, zero, suc, ◌+◌, ◌≤◌, ◌≡◌, refl, sym, ap, subst, ◌∙◌, some, List, [], ◌∷◌, ◌++◌, append_assoc,
  length, get_elem?, set, some_inj, arith, lengths,
}
use solana_bpf_simulator.InstructionExecutor.Types.{Sdk}
use solana_bpf_simulator.InstructionExecutor.Layout.{slot_len, length-slot}
use solana_bpf_simulator.InstructionExecutor.View.{
  Entry, IsEntry, entry_slot, slots, AreEntries, slots_len, offsets,
}

module _ (sdk : Sdk) where
  pub length-entry_slot :
      (size : ℕ) (x : Entry) → IsEntry size x → length (entry_slot sdk size x) ≡ slot_len sdk size
  length-entry_slot size x h =
      length-slot sdk size x.key x.account x.is_signer x.is_writable x.account.executable
        (omega arith)

  pub length-slots :
      (sizes : List ℕ) (xs : List Entry)
      → AreEntries sdk sizes xs
      → length (slots sdk sizes xs) ≡ slots_len sdk sizes
  length-slots [] [] h = refl
  length-slots [] (x ∷ xs) h = elim h [ ]
  length-slots (size ∷ sizes) [] h = elim h [ ]
  length-slots (size ∷ sizes) (x ∷ xs) (hx, hs) =
      omega (lengths, length-slots sizes xs hs, length-entry_slot size x hx)

  -- The bytes before and behind the slot of account `i`.
  pub before : List ℕ → List Entry → ℕ → List ℕ
  before (size ∷ sizes) (x ∷ xs) (suc i) = entry_slot sdk size x ++ before sizes xs i
  before _ _ _ = []

  pub after : List ℕ → List Entry → ℕ → List ℕ
  after (size ∷ sizes) (x ∷ xs) zero = slots sdk sizes xs
  after (size ∷ sizes) (x ∷ xs) (suc i) = after sizes xs i
  after _ _ _ = []

  pub entry_at :
      (sizes : List ℕ) (xs : List Entry) (i size : ℕ)
      → AreEntries sdk sizes xs
      → get_elem? sizes i ≡ some size
      → (x : Entry) × (get_elem? xs i ≡ some x) × IsEntry size x
  entry_at [] xs i size h e = cc
  entry_at (s ∷ sizes) [] i size h e = elim h [ ]
  entry_at (s ∷ sizes) (x ∷ xs) zero size (hx, hs) e =
      (x, refl, subst (λ k. IsEntry k x) (some_inj e) hx)
  entry_at (s ∷ sizes) (x ∷ xs) (suc i) size (hx, hs) e = entry_at sizes xs i size hs e

  pub slots_split :
      (sizes : List ℕ) (xs : List Entry) (i size : ℕ) (x : Entry)
      → get_elem? sizes i ≡ some size
      → get_elem? xs i ≡ some x
      → slots sdk sizes xs ≡ before sizes xs i ++ (entry_slot sdk size x ++ after sizes xs i)
  unfolding before after
  slots_split [] xs i size x e f = cc
  slots_split (s ∷ sizes) [] i size x e f = cc
  slots_split (s ∷ sizes) (y ∷ xs) zero size x e f =
      ap₂ (λ k t. entry_slot sdk k t ++ slots sdk sizes xs) (some_inj e) (some_inj f)
  slots_split (s ∷ sizes) (y ∷ xs) (suc i) size x e f =
      ap (λ t. entry_slot sdk s y ++ t) (slots_split sizes xs i size x e f)
      ∙ sym (append_assoc (entry_slot sdk s y) _ _)

  pub slots-set :
      (sizes : List ℕ) (xs : List Entry) (i size : ℕ) (x y : Entry)
      → get_elem? sizes i ≡ some size
      → get_elem? xs i ≡ some x
      → slots sdk sizes (set xs i y)
        ≡ before sizes xs i ++ (entry_slot sdk size y ++ after sizes xs i)
  unfolding before after
  slots-set [] xs i size x y e f = cc
  slots-set (s ∷ sizes) [] i size x y e f = cc
  slots-set (s ∷ sizes) (z ∷ xs) zero size x y e f =
      ap (λ k. entry_slot sdk k y ++ slots sdk sizes xs) (some_inj e)
  slots-set (s ∷ sizes) (z ∷ xs) (suc i) size x y e f =
      ap (λ t. entry_slot sdk s z ++ t) (slots-set sizes xs i size x y e f)
      ∙ sym (append_assoc (entry_slot sdk s z) _ _)

  pub offset_at :
      (sizes : List ℕ) (xs : List Entry) (i size from : ℕ)
      → AreEntries sdk sizes xs
      → get_elem? sizes i ≡ some size
      → get_elem? (offsets sdk from sizes) i ≡ some (from + length (before sizes xs i))
  unfolding before
  offset_at [] xs i size from h e = cc
  offset_at (s ∷ sizes) [] i size from h e = elim h [ ]
  offset_at (s ∷ sizes) (x ∷ xs) zero size from h e = ap some (omega arith)
  offset_at (s ∷ sizes) (x ∷ xs) (suc i) size from (hx, hs) e =
      offset_at sizes xs i size (from + slot_len sdk s) hs e
      ∙ ap some (omega (lengths, length-entry_slot s x hx))

  pub AreEntries-set :
      (sizes : List ℕ) (xs : List Entry) (i size : ℕ) (y : Entry)
      → AreEntries sdk sizes xs
      → get_elem? sizes i ≡ some size
      → IsEntry size y
      → AreEntries sdk sizes (set xs i y)
  AreEntries-set [] xs i size y h e hy = cc
  AreEntries-set (s ∷ sizes) [] i size y h e hy = elim h [ ]
  AreEntries-set (s ∷ sizes) (x ∷ xs) zero size y (hx, hs) e hy =
      (subst (λ k. IsEntry k y) (sym (some_inj e)) hy, hs)
  AreEntries-set (s ∷ sizes) (x ∷ xs) (suc i) size y (hx, hs) e hy =
      (hx, AreEntries-set sizes xs i size y hs e hy)

  -- The slot lies within the slots.
  pub before_bound :
      (sizes : List ℕ) (xs : List Entry) (i size : ℕ)
      → AreEntries sdk sizes xs
      → get_elem? sizes i ≡ some size
      → length (before sizes xs i) + slot_len sdk size ≤ slots_len sdk sizes
  unfolding before
  before_bound [] xs i size h e = cc
  before_bound (s ∷ sizes) [] i size h e = elim h [ ]
  before_bound (s ∷ sizes) (x ∷ xs) zero size h e =
      subst (λ k. 0 + slot_len sdk k ≤ slot_len sdk s + slots_len sdk sizes) (some_inj e)
        (omega arith)
  before_bound (s ∷ sizes) (x ∷ xs) (suc i) size (hx, hs) e =
      omega (lengths, length-entry_slot s x hx, before_bound sizes xs i size hs e)
