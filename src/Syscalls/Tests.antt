-- ===== src/Syscalls/Tests.antt =====
-- The theorems on syscalls at inputs that meet their hypotheses, and runs.
use solana_bpf_simulator.Prelude.{
  ℕ, ◌+◌, ◌-◌, ◌*◌, ◌/◌, ◌%◌, ◌≤◌, ◌<◌, ◌≡◌, refl, sym, ap, ◌∙◌, subst, ltb, leb, le→leb,
  Bool-cases, inl, inr, ◌↔◌, ◌⊎◌, true, false, Option, none, some, List, [], ◌∷◌, ◌==◌, le→ltb, All,
  if◌then◌else◌, arith,
}
use solana_bpf_simulator.Prelude.Bytes.{be_bytes, from_be_bytes}
use solana_bpf_simulator.Prelude.Outcome.{Outcome, ok, err, panic}
use solana_bpf_simulator.InstructionExecutor.Context
use solana_bpf_simulator.Syscalls.Host.{load}
use solana_bpf_simulator.Syscalls.Types.{
  AccessType, EbpfError, access_violation, MemoryRegion, MemoryMapping, Runtime, Machine,
}
use solana_bpf_simulator.Syscalls.Translate.{
  is_nonoverlapping, translate, translate_type_inner, translate_slice_inner, translate_seeds,
  translate_and_check_program_address_inputs,
}
use solana_bpf_simulator.Syscalls.Translate.Overlap.{is_nonoverlapping_iff}
use solana_bpf_simulator.Syscalls.Program.{syscall_try_find_program_address}
use solana_bpf_simulator.Syscalls.Program.Search.{
  syscall_try_find_program_address_lem, syscall_try_find_program_address-none,
}
use solana_bpf_simulator.Syscalls.Registry.{syscalls}
use solana_bpf_simulator.Syscalls.Bounded.Handlers.{KeepsBound, syscalls-KeepsBound}
use solana_bpf_simulator.Syscalls.ReturnData.{syscall_set_return_data, syscall_get_return_data}
use solana_bpf_simulator.Syscalls.ReturnData.RoundTrip.{get_return_data-set_return_data}
use solana_bpf_simulator.Syscalls.MemOps.{
  MemoryChunkIterator, Chunk, next, next_back, syscall_memcpy,
}
use solana_bpf_simulator.Syscalls.MemOps.Copy.{syscall_memcpy_lem}
use solana_bpf_simulator.Syscalls.MemOps.Pairs.{memmove_non_contiguous}
use solana_bpf_simulator.Syscalls.MemOps.Pairs.Sides.{Maps, IsMapped}
use solana_bpf_simulator.Syscalls.MemOps.Pairs.Moves.{Moves, memmove_non_contiguous-Moves}
use solana_bpf_simulator.Syscalls.MemOps.Chunks.{FindsRegions, IsChunk, next_lem, next_back_lem}

-- An address for the bump seed 254 alone.
abbrev bump_254 : List (List ℕ) → ℕ → Option ℕ
bump_254 ((bump ∷ []) ∷ []) program_id = if bump == 254 then some 77 else none
bump_254 _ program_id = none

abbrev runtime : Runtime
runtime = record {
  SysvarCache = Unit {0};
  LogCollector = List (List ℕ);
  Utf8Error = ℕ;
  InstructionError = ℕ;
  max_return_data = 1024;
  max_seeds = 16;
  max_seed_len = 32;
  dangling = 1;
  utf8_error = λ bytes. none;
  log = λ lines line. line ∷ lines;
  create_program_address = bump_254;
  clock = record { size_of = 40; align_of = 8 };
  get_clock = λ cache. err 0;
}

abbrev block : ℕ → MemoryRegion
block vm_addr = record {
  vm_addr = (vm_addr / 16) * 16;
  vm_addr_end = (vm_addr / 16) * 16 + 16;
  vm_to_host = λ at len. ok at;
}

-- Each address is its own host address, in regions of 16 bytes.
abbrev identity : MemoryMapping
identity = record {
  map = λ access_type vm_addr len. ok vm_addr;
  region = λ access_type vm_addr. ok (block vm_addr);
}

ok_inj : {r s : MemoryRegion} → ◌≡◌ {A = Outcome EbpfError MemoryRegion} (ok r) (ok s) → r ≡ s
ok_inj e = cc

identity-FindsRegions : FindsRegions identity
identity-FindsRegions access_type vm_addr r e =
    subst (λ s. (s.vm_addr ≤ vm_addr) × (vm_addr < s.vm_addr_end)) (ok_inj e)
      (omega arith, omega arith)

-- Every byte is the last two digits of its address.
abbrev machine : Machine runtime
machine = record {
  context = record (Context.new {SysvarCache = Unit {0}} {LogCollector = List (List ℕ)} tt) {
    program_id = 9;
  };
  host = λ a. a;
}

is_nonoverlapping_iff_example :
    (is_nonoverlapping 3 4 7 2 ≡ true) ↔ ((a : ℕ) → 3 ≤ a → a < 3 + 4 → 7 ≤ a → 7 + 2 ≤ a)
is_nonoverlapping_iff_example = is_nonoverlapping_iff 3 4 7 2 (omega arith) (omega arith)

apart : (src n dst m : ℕ) → src + n ≤ dst → is_nonoverlapping src n dst m ≡ true
unfolding is_nonoverlapping
apart src n dst m h = ground arith

syscall_memcpy_lem_example :
    (after : Machine runtime) × (syscall_memcpy runtime 40 10 5 0 0 identity machine
      ≡ ok (0, after))
    × (after.context ≡ machine.context)
    × (load after.host 40 5 ≡ load machine.host 10 5)
    × ((a : ℕ) → (a < 40) ⊎ (40 + 5 ≤ a) → after.host a ≡ machine.host a)
syscall_memcpy_lem_example =
    syscall_memcpy_lem runtime identity machine 40 10 5 0 0 40 10 (omega arith) (omega arith) refl
      refl (apart 10 5 40 5 (omega arith))

abbrev chunks : MemoryChunkIterator
chunks = record {
  memory_mapping = identity;
  access_type = AccessType.load;
  initial_vm_addr = 10;
  vm_addr_start = 10;
  vm_addr_end = 40;
  len = 30;
}

next_lem_example :
    (c : Chunk) × (rest : MemoryChunkIterator) × (next chunks ≡ some (ok (c, rest)))
    × IsChunk c
    × (c.vm_addr ≡ 10)
    × (rest.vm_addr_start ≡ c.vm_addr + c.len)
    × (rest.vm_addr_end ≡ 40)
    × (rest.vm_addr_start ≤ rest.vm_addr_end)
next_lem_example = next_lem chunks identity-FindsRegions (block 10) (omega arith) refl

next_back_lem_example :
    (c : Chunk) × (rest : MemoryChunkIterator) × (next_back chunks ≡ some (ok (c, rest)))
    × IsChunk c
    × (c.vm_addr + c.len ≡ 40)
    × (rest.vm_addr_end ≡ c.vm_addr)
    × (rest.vm_addr_start ≡ 10)
    × (rest.vm_addr_start ≤ rest.vm_addr_end)
next_back_lem_example =
    next_back_lem chunks identity-FindsRegions (block (40 - 1)) (omega arith) refl

get_return_data-set_return_data_example :
    (set after : Machine runtime) × (syscall_set_return_data runtime 10 5 0 0 0 identity machine
      ≡ ok (0, set))
    × (syscall_get_return_data runtime 40 3 100 0 0 identity set ≡ ok (5, after))
    × (load after.host 40 3 ≡ load machine.host 10 3)
    × (load after.host 100 32 ≡ be_bytes 32 9)
    × ((a : ℕ)
        → (a < 40) ⊎ (40 + 3 ≤ a)
        → (a < 100) ⊎ (100 + 32 ≤ a)
        → after.host a ≡ machine.host a)
get_return_data-set_return_data_example =
    get_return_data-set_return_data runtime identity identity machine 10 5 40 3 100 10 40 100 3
      (omega arith) (omega arith) (omega arith) refl (omega arith) (omega arith) refl refl
      (apart 40 3 100 32 (omega arith))

abbrev silent : Runtime
silent = record runtime { create_program_address = λ seeds program_id. none }

abbrev silent_machine : Machine silent
silent_machine = record { context = machine.context; host = machine.host }

-- No seeds, and the id of the program at the address 200.
inputs :
    (rt : Runtime) (m : Machine rt)
    → translate_and_check_program_address_inputs rt 0 0 200 identity false false m
      ≡ ok (([], from_be_bytes (load m.host 200 32)), m)
unfolding translate_and_check_program_address_inputs translate_slice_inner translate_type_inner
    translate_seeds translate
inputs rt m = rw (le→ltb rt.max_seeds 0 (omega arith)) refl

syscall_try_find_program_address_lem_example :
    (after : Machine runtime) × (syscall_try_find_program_address runtime 0 0 200 100 40 identity
        machine
      ≡ ok (0, after))
    × (after.context ≡ machine.context)
    × (load after.host 40 1 ≡ 254 ∷ [])
    × (load after.host 100 32 ≡ be_bytes 32 77)
    × ((a : ℕ)
        → (a < 40) ⊎ (40 + 1 ≤ a)
        → (a < 100) ⊎ (100 + 32 ≤ a)
        → after.host a ≡ machine.host a)
syscall_try_find_program_address_lem_example =
    syscall_try_find_program_address_lem runtime identity machine 0 0 200 100 40
      (from_be_bytes (load machine.host 200 32)) [] (inputs runtime machine) 254 77 40 100
      (omega arith) (omega arith) above refl refl refl (apart 40 1 100 32 (omega arith))
  where
    other : (b : ℕ) → 254 < b → (b == 254) ≡ false
    other b h = ground arith

    above :
        (b : ℕ)
        → 254 < b
        → b ≤ 255
        → bump_254 ((b ∷ []) ∷ []) (from_be_bytes (load machine.host 200 32)) ≡ none
    above b h k = rw (other b h) refl

syscall_try_find_program_address-none_example :
    syscall_try_find_program_address silent 0 0 200 100 40 identity silent_machine
    ≡ ok (1, silent_machine)
syscall_try_find_program_address-none_example =
    syscall_try_find_program_address-none silent identity silent_machine 0 0 200 100 40
      (from_be_bytes (load machine.host 200 32)) [] (inputs silent silent_machine) (λ b h k. refl)

syscalls-KeepsBound_example : All (KeepsBound runtime) (syscalls runtime)
syscalls-KeepsBound_example = syscalls-KeepsBound runtime

-- Regions of 16 bytes, one behind the other for the program and 16 bytes apart at the host.
abbrev spread : ℕ → ℕ
spread a = (a / 16) * 32 + a % 16

-- The region with an address inside; the host address of a range is counted from where the region begins.
abbrev apart_block : ℕ → MemoryRegion
apart_block vm_addr = record {
  vm_addr = (vm_addr / 16) * 16;
  vm_addr_end = (vm_addr / 16) * 16 + 16;
  vm_to_host = λ at len.
      if leb ((at - (vm_addr / 16) * 16) + len) 16
      then ok ((vm_addr / 16) * 32 + (at - (vm_addr / 16) * 16))
      else err (access_violation AccessType.load at len "unknown");
}

-- Beyond address 64 there is no region.
abbrev scattered : MemoryMapping
scattered = record {
  map = λ access_type vm_addr len. ok (spread vm_addr);
  region = λ access_type vm_addr.
      if ltb vm_addr 64
      then ok (apart_block vm_addr)
      else err (access_violation access_type vm_addr 1 "unknown");
}

apart_block-IsMapped : (addr : ℕ) → IsMapped spread (apart_block addr)
apart_block-IsMapped addr = record {
  to_host = λ at len positive first last.
      rw (le→leb ((at - (addr / 16) * 16) + len) 16 (omega arith))
        (ap ok {x = (addr / 16) * 32 + (at - (addr / 16) * 16)} {y = spread at} (omega arith));
  contiguous = λ at i first last. omega arith;
}

scattered-Maps : Maps scattered spread
scattered-Maps = record {
  inside = λ access addr r e. (found access addr r e).0;
  mapped = λ access addr r e. (found access addr r e).1;
  returns = λ access addr e. elim (Bool-cases (ltb addr 64)) [
    | inl low ↦ let wrong : ok (apart_block addr) ≡ panic = sym (rw low refl) ∙ e in cc
    | inr high ↦
        let wrong : err (access_violation access addr 1 "unknown") ≡ panic =
          sym (rw high refl) ∙ e in
        cc
  ];
}
  where
    found :
        (access : AccessType) (addr : ℕ) (r : MemoryRegion)
        → scattered.region access addr ≡ ok r
        → ((r.vm_addr ≤ addr) × (addr < r.vm_addr_end)) × IsMapped spread r
    found access addr r e = elim (Bool-cases (ltb addr 64)) [
      | inl low ↦
          let same : ok (apart_block addr) ≡ ok r = sym (rw low refl) ∙ e in
          subst (λ s. ((s.vm_addr ≤ addr) × (addr < s.vm_addr_end)) × IsMapped spread s)
            (ok_inj same) ((omega arith, omega arith), apart_block-IsMapped addr)
      | inr high ↦
          let wrong : err (access_violation access addr 1 "unknown") ≡ ok r =
            sym (rw high refl) ∙ e in
          cc
    ]

-- Both ranges lie in three regions, and overlap.
memmove_non_contiguous-Moves_example :
    Moves runtime spread 20 10 30 scattered machine
      (memmove_non_contiguous runtime 20 10 30 scattered machine)
memmove_non_contiguous-Moves_example =
    memmove_non_contiguous-Moves runtime spread 20 10 30 scattered machine (λ a b e. omega arith)
      scattered-Maps
