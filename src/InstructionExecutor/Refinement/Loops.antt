-- ===== src/InstructionExecutor/Refinement/Loops.antt =====
-- The two loops of `new`: the size of the slots, and the slots themselves.
use mathlib.Core.Path.{ap₂}
use solana_bpf_simulator.Prelude.{
  ℕ, suc, ◌+◌, ◌≤◌, ◌<◌, ◌≡◌, refl, sym, ap, subst, ◌∙◌, none, some, List, [], ◌∷◌, ◌++◌,
  append_assoc, append-nil, length, get_elem?, arith, lengths,
}
use solana_bpf_simulator.Prelude.Outcome.{ok}
use solana_bpf_simulator.Words.{u64_mod}
use solana_bpf_simulator.Memory.{AlignedMemory, IsAlignedMemory}
use solana_bpf_simulator.InstructionExecutor.Types.{Sdk, AccountSizes}
use solana_bpf_simulator.InstructionExecutor.Layout.{empty_slot, slot_len, length-empty_slot}
use solana_bpf_simulator.InstructionExecutor.Buffer.Writes.{written, Fits, written-written}
use solana_bpf_simulator.InstructionExecutor.Buffer.Slots.{write_empty_account_lem}
use solana_bpf_simulator.InstructionExecutor.Vm.{Vm}
use solana_bpf_simulator.InstructionExecutor.Executor.{size_loop, slots_loop}
use solana_bpf_simulator.InstructionExecutor.View.{slots_len, offsets}

-- The sizes from account `i` on are those of the list.
abbrev pub SizesFrom : AccountSizes → ℕ → List ℕ → Type 0
SizesFrom a i sizes = (k size : ℕ) → get_elem? sizes k ≡ some size → a.size (i + k) ≡ some size

module _ (mem : AlignedMemory) (vm : Vm mem) (sdk : Sdk) where
  SizesFrom-tail :
      (a : AccountSizes) (i size : ℕ) (sizes : List ℕ)
      → SizesFrom a i (size ∷ sizes)
      → SizesFrom a (i + 1) sizes
  SizesFrom-tail a i size sizes h k s e =
      subst (λ n. a.size n ≡ some s) {x = i + suc k} {y = i + 1 + k} (omega arith) (h (suc k) s e)

  SizesFrom-head :
      (a : AccountSizes) (i size : ℕ) (sizes : List ℕ)
      → SizesFrom a i (size ∷ sizes)
      → a.size i ≡ some size
  SizesFrom-head a i size sizes h =
      subst (λ n. a.size n ≡ some size) {x = i + 0} {y = i} (omega arith) (h 0 size refl)

  -- The first loop adds up the slots.
  pub size_loop_lem :
      (a : AccountSizes) (sizes : List ℕ) (i size : ℕ)
      → SizesFrom a i sizes
      → size + slots_len sdk sizes < u64_mod
      → size_loop mem vm sdk a (length sizes) i size ≡ ok (size + slots_len sdk sizes)
  unfolding size_loop
  size_loop_lem a [] i size h small = ap ok (omega arith)
  size_loop_lem a (s ∷ sizes) i size h small = rw (SizesFrom-head a i s sizes h) (
      ap (size_loop mem vm sdk a (length sizes) (i + 1)) {y = size + slot_len sdk s} (omega arith)
      ∙ size_loop_lem a sizes (i + 1) (size + slot_len sdk s) (SizesFrom-tail a i s sizes h)
          (omega arith)
      ∙ ap ok (omega arith))

  abbrev pub empty_slots : List ℕ → List ℕ
  empty_slots [] = []
  empty_slots (size ∷ sizes) = empty_slot sdk size ++ empty_slots sizes

-- A buffer that was empty before `acc` was appended.
module _ (mem : AlignedMemory) (laws : IsAlignedMemory mem) (vm : Vm mem) (sdk : Sdk)
    (b : mem.Memory) (hb : mem.as_slice b ≡ []) where
  pub as_slice_lem :
      (acc : List ℕ) → length acc ≤ mem.capacity b → mem.as_slice (written mem b none acc) ≡ acc
  as_slice_lem acc h =
      laws.as_slice-write_all b acc (omega (arith, ap length hb)) ∙ ap (λ l. l ++ acc) hb

  pub capacity_lem :
      (acc : List ℕ)
      → length acc ≤ mem.capacity b
      → mem.capacity (written mem b none acc) ≡ mem.capacity b
  capacity_lem acc h = laws.capacity-write_all b acc (omega (arith, ap length hb))

  -- The second loop appends the empty slots and collects their offsets.
  pub slots_loop_lem :
      (a : AccountSizes) (sizes : List ℕ) (i : ℕ) (acc offs : List ℕ)
      → SizesFrom a i sizes
      → length acc + slots_len sdk sizes ≤ mem.capacity b
      → slots_len sdk sizes < u64_mod
      → slots_loop mem vm sdk a (length sizes) i (written mem b none acc) offs
        ≡ ok (
          written mem b none (acc ++ empty_slots mem vm sdk sizes),
          offs ++ offsets sdk (length acc) sizes,
        )
  unfolding slots_loop
  slots_loop_lem a [] i acc offs h room small =
      ap₂ (λ l k. ok (written mem b none l, k)) (sym (append-nil acc)) (sym (append-nil offs))
  slots_loop_lem a (s ∷ sizes) i acc offs h room small =
      rw
        (
          SizesFrom-head mem vm sdk a i s sizes h,
          as_slice_lem acc (omega arith),
          write_empty_account_lem mem laws sdk (written mem b none acc) s (omega arith) fits,
          written-written mem laws b none acc (empty_slot sdk s) more,
        )
        (slots_loop_lem a sizes (i + 1) (acc ++ empty_slot sdk s) (offs ++ length acc ∷ [])
            (SizesFrom-tail mem vm sdk a i s sizes h) (omega (arith, longer)) (omega arith)
          ∙ ap₂ (λ l k. ok (written mem b none l, k)) (append_assoc acc (empty_slot sdk s) _)
              joined)
    where
      fits : Fits mem (written mem b none acc) none (slot_len sdk s)
      fits = rw (as_slice_lem acc (omega arith), capacity_lem acc (omega arith)) (omega arith)

      longer : length (acc ++ empty_slot sdk s) ≡ length acc + slot_len sdk s
      longer = omega (lengths, length-empty_slot sdk s)

      joined :
          (offs ++ length acc ∷ []) ++ offsets sdk (length (acc ++ empty_slot sdk s)) sizes
          ≡ offs ++ offsets sdk (length acc) (s ∷ sizes)
      joined =
          append_assoc offs (length acc ∷ []) _
          ∙ ap (λ n. offs ++ (length acc ∷ offsets sdk n sizes)) longer

      more : Fits mem b none (length acc + length (empty_slot sdk s))
      more = omega (arith, ap length hb, length-empty_slot sdk s)
