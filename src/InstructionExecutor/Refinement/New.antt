-- ===== src/InstructionExecutor/Refinement/New.antt =====
-- What `new` makes, and the view of it.
use mathlib.Core.Path.{ap₂}
use solana_bpf_simulator.Prelude.{
  ℕ, ◌+◌, ◌≤◌, ◌<◌, ◌≡◌, refl, sym, ap, subst, ◌∙◌, true, false, none, some, List, [], ◌∷◌, ◌++◌,
  append_assoc, map, length, replicate, arith, lengths, length-replicate,
}
use solana_bpf_simulator.Prelude.Bytes.{le_bytes, be_bytes}
use solana_bpf_simulator.Prelude.Outcome.{Outcome, ok, ◌>>=◌}
use solana_bpf_simulator.Words.{u64_mod, add64}
use solana_bpf_simulator.Memory.{AlignedMemory, IsAlignedMemory}
use solana_bpf_simulator.InstructionExecutor.Types.{Sdk, Error, AccountSizes}
use solana_bpf_simulator.InstructionExecutor.Layout.{default_account, empty_slot, length-empty_slot}
use solana_bpf_simulator.InstructionExecutor.Buffer.Writes.{
  written, Fits, write_all_first, write-write_all, write_step, write_all_step, fill_write_step,
}
use solana_bpf_simulator.InstructionExecutor.Context
use solana_bpf_simulator.InstructionExecutor.Vm.{Vm}
use solana_bpf_simulator.InstructionExecutor.Executor.{
  InstructionExecutor, size_loop, slots_loop, new,
}
use solana_bpf_simulator.InstructionExecutor.Refinement.Update.{slot-padded}
use solana_bpf_simulator.InstructionExecutor.View.{
  View, AreSizes, AreEntries, Represents, slots, slots_len, serialize, buffer_len, empty_entry,
  offsets,
}
use solana_bpf_simulator.InstructionExecutor.Refinement.Loops.{
  SizesFrom, size_loop_lem, empty_slots, as_slice_lem, slots_loop_lem,
}

module _ (mem : AlignedMemory) (vm : Vm mem) (sdk : Sdk) where
  abbrev pub empty_view : List ℕ → ℕ → View
  empty_view sizes instruction_size = record {
    entries = map empty_entry sizes;
    instruction = replicate instruction_size 0;
    program_id = 0;
  }

  slots-empty :
      (sizes : List ℕ) → slots sdk sizes (map empty_entry sizes) ≡ empty_slots mem vm sdk sizes
  unfolding empty_slot
  slots-empty [] = refl
  slots-empty (size ∷ sizes) =
      ap₂ (λ s t. s ++ t)
        (sym (slot-padded sdk size 0 default_account false false false (omega arith)))
        (slots-empty sizes)

  AreEntries-empty : (sizes : List ℕ) → AreEntries sdk sizes (map empty_entry sizes)
  AreEntries-empty [] = tt
  AreEntries-empty (size ∷ sizes) = (
    record {
      filled = omega lengths;
      owner = omega arith;
      lamports = omega arith;
      rent_epoch = omega arith;
    },
    AreEntries-empty sizes,
  )

  length-empty_slots :
      (sizes : List ℕ) → length (empty_slots mem vm sdk sizes) ≡ slots_len sdk sizes
  length-empty_slots [] = refl
  length-empty_slots (size ∷ sizes) =
      omega (lengths, length-empty_slot sdk size, length-empty_slots sizes)

module _ (mem : AlignedMemory) (laws : IsAlignedMemory mem) (vm : Vm mem) (sdk : Sdk)
    (a : AccountSizes) (sizes : List ℕ) (sized : AreSizes a sizes) (instruction_size : ℕ)
    (small : buffer_len sdk sizes instruction_size < u64_mod) where
  abbrev fresh : mem.Memory
  fresh = mem.with_capacity (buffer_len sdk sizes instruction_size)

  abbrev to_slots : List ℕ
  to_slots = le_bytes 8 (length sizes) ++ empty_slots mem vm sdk sizes

  abbrev to_len : List ℕ
  to_len = to_slots ++ le_bytes 8 instruction_size

  abbrev to_instruction : List ℕ
  to_instruction = to_len ++ replicate instruction_size 0

  abbrev image : List ℕ
  image = to_instruction ++ be_bytes 32 0

  -- What `new` returns.
  abbrev pub created : vm.Registry → InstructionExecutor mem vm
  created functions = record {
    context = Context.new vm.default_cache;
    runtime = vm.new_loader 64 true functions;
    instruction_size = instruction_size;
    account_sizes = a;
    instruction_offset = length to_slots;
    account_offsets = offsets sdk 8 sizes;
    program_id_offset = length to_instruction;
    buffer = written mem fresh none image;
    stack = mem.zero_filled vm.stack_size;
    heap = mem.zero_filled sdk.heap_length;
    executable = none;
  }

  length-image : length image ≡ buffer_len sdk sizes instruction_size
  length-image = omega (lengths, length-empty_slots mem vm sdk sizes)

  room : (n : ℕ) → n ≤ length image → Fits mem fresh none n
  room n h = omega (
    arith,
    ap length (laws.as_slice-with_capacity (buffer_len sdk sizes instruction_size)),
    laws.capacity-with_capacity (buffer_len sdk sizes instruction_size),
    length-image,
  )

  as_slice-fresh :
      (acc : List ℕ) → length acc ≤ length image → mem.as_slice (written mem fresh none acc) ≡ acc
  as_slice-fresh acc h = as_slice_lem mem laws vm sdk fresh (laws.as_slice-with_capacity _) acc (
      rw (laws.capacity-with_capacity (buffer_len sdk sizes instruction_size))
        (omega (arith, length-image)))

  total :
      add64 (add64 (8 + slots_len sdk sizes) (add64 8 instruction_size)) 32
      ≡ buffer_len sdk sizes instruction_size
  total = omega arith

  sizes_from : SizesFrom a 0 sizes
  sizes_from k size e =
      subst (λ n. a.size n ≡ some size) {x = k} {y = 0 + k} (omega arith) (sized.at k size e)

  slots_done :
      slots_loop mem vm sdk a a.len 0 (written mem fresh none (le_bytes 8 (length sizes))) []
      ≡ ok (written mem fresh none to_slots, offsets sdk 8 sizes)
  slots_done =
      ap (λ n. slots_loop mem vm sdk a n 0 (written mem fresh none (le_bytes 8 (length sizes))) [])
        sized.count
      ∙ slots_loop_lem mem laws vm sdk fresh (laws.as_slice-with_capacity _) a sizes 0
          (le_bytes 8 (length sizes)) [] sizes_from
          (rw (laws.capacity-with_capacity (buffer_len sdk sizes instruction_size)) (omega lengths))
          (omega arith)
      ∙ ap (λ n. ok (written mem fresh none to_slots, offsets sdk n sizes)) {y = 8} (omega lengths)

  size_done : size_loop mem vm sdk a a.len 0 8 ≡ ok (8 + slots_len sdk sizes)
  size_done =
      ap (λ n. size_loop mem vm sdk a n 0 8) sized.count
      ∙ size_loop_lem mem vm sdk a sizes 0 8 sizes_from (omega arith)

  new-created :
      (registry : Outcome Error vm.Registry)
      → new mem vm sdk registry instruction_size a
        ≡ (registry >>= λ functions. ok (created functions))
  unfolding new
  new-created registry =
      rw
        (
          size_done,
          total,
          ap (le_bytes 8) sized.count,
          write-write_all mem laws fresh none (le_bytes 8 (length sizes)) (room _ (omega lengths)),
          write_all_first mem laws fresh none (le_bytes 8 (length sizes)) (room _ (omega lengths)),
          slots_done,
          write_step mem laws fresh none to_slots (le_bytes 8 instruction_size)
              (room _ (omega lengths)),
          fill_write_step mem laws fresh none to_len instruction_size 0 (room _ (omega lengths)),
          write_all_step mem laws fresh none to_instruction (be_bytes 32 0)
              (room _ (omega lengths)),
          as_slice-fresh to_slots (omega lengths),
          as_slice-fresh to_instruction (omega lengths),
        )
        refl

  bytes_lem : image ≡ serialize sdk sizes (empty_view mem vm sdk sizes instruction_size)
  unfolding serialize
  bytes_lem =
      rw (slots-empty mem vm sdk sizes, length-replicate {A = ℕ} instruction_size 0)
        (simp append_assoc)

  created-Represents :
      (functions : vm.Registry)
      → Represents mem vm sdk sizes
          (created functions)
          (empty_view mem vm sdk sizes instruction_size)
  created-Represents functions = record {
    sized = sized;
    entries = AreEntries-empty mem vm sdk sizes;
    instruction = length-replicate {A = ℕ} instruction_size 0;
    small = small;
    bytes = as_slice-fresh image (omega arith) ∙ bytes_lem;
    offsets = refl;
    instruction_offset = omega (lengths, length-empty_slots mem vm sdk sizes);
    program_id_offset = omega (lengths, length-empty_slots mem vm sdk sizes);
  }

  created_full :
      (functions : vm.Registry)
      → length (mem.as_slice (created functions).buffer) ≡ mem.capacity (created functions).buffer
  created_full functions =
      ap length (as_slice-fresh image (omega arith))
      ∙ length-image
      ∙ sym (laws.capacity-with_capacity _)
      ∙ sym (laws.capacity-write_all fresh image (room _ (omega arith)))

  -- For sizes whose buffer is shorter than 2 ^ 64 bytes `new` fails exactly where the registry of
  -- syscalls cannot be built, with its error. Otherwise what it returns represents empty accounts, a
  -- zero instruction and the zero program id, and its buffer is exactly full.
  pub new_lem :
      (registry : Outcome Error vm.Registry)
      → (new mem vm sdk registry instruction_size a
          ≡ (registry >>= λ functions. ok (created functions)))
        × ((functions : vm.Registry)
            → Represents mem vm sdk sizes
                (created functions)
                (empty_view mem vm sdk sizes instruction_size)
              × (length (mem.as_slice (created functions).buffer)
                  ≡ mem.capacity (created functions).buffer))
  new_lem registry =
      (new-created registry, λ functions. (created-Represents functions, created_full functions))
