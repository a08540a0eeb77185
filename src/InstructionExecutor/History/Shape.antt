-- ===== src/InstructionExecutor/History/Shape.antt =====
-- The sizes and the places of the parts of an executor, apart from the bytes of its buffer.
use solana_bpf_simulator.Prelude.{
  ℕ, zero, suc, ◌+◌, ◌≤◌, ◌<◌, ◌≡◌, ◌≢◌, refl, sym, ap, ◌∙◌, ◌⊎◌, inl, inr, none, some, List, [],
  ◌∷◌, length, get_elem?, some_inj, arith,
}
use solana_bpf_simulator.Words.{u64_mod}
use solana_bpf_simulator.Memory.{AlignedMemory}
use solana_bpf_simulator.InstructionExecutor.Types.{Sdk}
use solana_bpf_simulator.InstructionExecutor.Layout.{slot_len}
use solana_bpf_simulator.InstructionExecutor.Vm.{Vm}
use solana_bpf_simulator.InstructionExecutor.Executor.{InstructionExecutor}
use solana_bpf_simulator.InstructionExecutor.View.{
  View, AreSizes, Represents, slots_len, offsets, buffer_len,
}
use solana_bpf_simulator.InstructionExecutor.Refinement.Buffer.{length-buffer}

module _ (sdk : Sdk) where
  -- How many bytes of slots stand before slot `i`.
  abbrev pub slot_start : List ℕ → ℕ → ℕ
  slot_start [] i = 0
  slot_start (size ∷ sizes) zero = 0
  slot_start (size ∷ sizes) (suc i) = slot_len sdk size + slot_start sizes i

  pub offsets-slot_start :
      (sizes : List ℕ) (i size from : ℕ)
      → get_elem? sizes i ≡ some size
      → get_elem? (offsets sdk from sizes) i ≡ some (from + slot_start sizes i)
  offsets-slot_start [] i size from e = cc
  offsets-slot_start (s ∷ sizes) zero size from e = ap some {x = from} {y = from + 0} (omega arith)
  offsets-slot_start (s ∷ sizes) (suc i) size from e =
      offsets-slot_start sizes i size (from + slot_len sdk s) e
      ∙ ap some {x = from + slot_len sdk s + slot_start sizes i} (omega arith)

  pub offsets-none :
      (sizes : List ℕ) (i from : ℕ)
      → get_elem? sizes i ≡ none
      → get_elem? (offsets sdk from sizes) i ≡ none
  offsets-none [] i from e = refl
  offsets-none (s ∷ sizes) zero from e = cc
  offsets-none (s ∷ sizes) (suc i) from e = offsets-none sizes i (from + slot_len sdk s) e

  pub slot_start_bound :
      (sizes : List ℕ) (i size : ℕ)
      → get_elem? sizes i ≡ some size
      → slot_start sizes i + slot_len sdk size ≤ slots_len sdk sizes
  slot_start_bound [] i size e = cc
  slot_start_bound (s ∷ sizes) zero size e = omega (arith, ap (slot_len sdk) (some_inj e))
  slot_start_bound (s ∷ sizes) (suc i) size e = omega (arith, slot_start_bound sizes i size e)

  -- Two slots do not overlap.
  pub slots_apart :
      (sizes : List ℕ) (i j size other : ℕ)
      → get_elem? sizes i ≡ some size
      → get_elem? sizes j ≡ some other
      → i ≢ j
      → (slot_start sizes i + slot_len sdk size ≤ slot_start sizes j)
        ⊎ (slot_start sizes j + slot_len sdk other ≤ slot_start sizes i)
  slots_apart [] i j size other e f ne = cc
  slots_apart (s ∷ sizes) zero zero size other e f ne = absurd (ne refl)
  slots_apart (s ∷ sizes) zero (suc j) size other e f ne =
      inl (omega (arith, ap (slot_len sdk) (some_inj e)))
  slots_apart (s ∷ sizes) (suc i) zero size other e f ne =
      inr (omega (arith, ap (slot_len sdk) (some_inj f)))
  slots_apart (s ∷ sizes) (suc i) (suc j) size other e f ne =
      elim (slots_apart sizes i j size other e f (λ same. ne (ap suc same))) [
        | inl h ↦ inl (omega arith)
        | inr h ↦ inr (omega arith)
      ]

module _ (mem : AlignedMemory) (vm : Vm mem) (sdk : Sdk) (sizes : List ℕ)
    (instruction_size : ℕ) where
  -- The buffer is as long as `new` makes it, and its parts stand where `new` places them.
  pub record IsShaped (self : InstructionExecutor mem vm) : Type 0 where
    pub sized : AreSizes self.account_sizes sizes
    pub instruction : self.instruction_size ≡ instruction_size
    pub small : buffer_len sdk sizes instruction_size < u64_mod
    pub filled : length (mem.as_slice self.buffer) ≡ buffer_len sdk sizes instruction_size
    pub offsets : self.account_offsets ≡ offsets sdk 8 sizes
    pub instruction_offset : self.instruction_offset ≡ 8 + slots_len sdk sizes
    pub program_id_offset :
        self.program_id_offset ≡ 8 + slots_len sdk sizes + (8 + instruction_size)

  -- An executor that represents a view has the shape.
  pub Represents-IsShaped :
      (self : InstructionExecutor mem vm) (v : View)
      → Represents mem vm sdk sizes self v
      → self.instruction_size ≡ instruction_size
      → IsShaped self
  Represents-IsShaped self v r e = record {
    sized = r.sized;
    instruction = e;
    small = rw (sym e) r.small;
    filled = length-buffer mem vm sdk sizes self v r ∙ ap (buffer_len sdk sizes) e;
    offsets = r.offsets;
    instruction_offset = r.instruction_offset;
    program_id_offset = r.program_id_offset ∙ ap (λ n. 8 + slots_len sdk sizes + (8 + n)) e;
  }

  -- A new buffer of the same length, and new parts that have no place in the shape.
  pub IsShaped-buffer :
      (self next : InstructionExecutor mem vm)
      → IsShaped self
      → next.account_sizes ≡ self.account_sizes
      → next.instruction_size ≡ self.instruction_size
      → next.account_offsets ≡ self.account_offsets
      → next.instruction_offset ≡ self.instruction_offset
      → next.program_id_offset ≡ self.program_id_offset
      → length (mem.as_slice next.buffer) ≡ length (mem.as_slice self.buffer)
      → IsShaped next
  IsShaped-buffer self next s a b c d e f = record {
    sized = rw a (s.sized);
    instruction = b ∙ s.instruction;
    small = s.small;
    filled = f ∙ s.filled;
    offsets = c ∙ s.offsets;
    instruction_offset = d ∙ s.instruction_offset;
    program_id_offset = e ∙ s.program_id_offset;
  }
