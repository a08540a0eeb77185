-- ===== src/Syscalls/Translate.antt =====
-- src/instruction_executor/syscalls/mod.rs: addresses of the virtual machine translated to host memory,
-- and the strings and seeds read from there.
pub mod Overlap
use solana_bpf_simulator.Prelude.{
  ℕ, zero, suc, ◌+◌, ◌*◌, ◌%◌, ◌^◌, Bool, true, false, not, ◌&&◌, Option, none, some, List, [], ◌∷◌,
  length, ltb, leb, ◌==◌, if◌then◌else◌,
}
use solana_bpf_simulator.Prelude.Slices.{range}
use solana_bpf_simulator.Prelude.Bytes.{from_le_bytes, from_be_bytes}
use solana_bpf_simulator.Prelude.Outcome.{Outcome, ok, err, panic, ok_or}
use solana_bpf_simulator.Prelude.Method.{pure, throw, gets, lift, ◌>>=◌}
use solana_bpf_simulator.Words.{saturating_sub, saturating_mul}
use solana_bpf_simulator.Syscalls.Host
use solana_bpf_simulator.Syscalls.Types.{
  SyscallError, invalid_string, bad_seeds, unaligned_pointer, invalid_length, AccessType, ErrorObj,
  syscall_error, ebpf_error, MemoryMapping, TypeLayout, u8, pubkey, fat_pointer, Runtime, Machine,
  Error, Syscall,
}

-- `Ordering` between the two addresses, with the saturating difference of each case.
unfoldable pub is_nonoverlapping : ℕ → ℕ → ℕ → ℕ → Bool
is_nonoverlapping src src_len dst dst_len =
    if ltb dst src
    then leb dst_len (saturating_sub src dst)
    else leb src_len (saturating_sub dst src)

unfoldable pub address_is_aligned : TypeLayout → ℕ → Bool
address_is_aligned type address = (address % type.align_of) == 0

-- `bytes.iter().position(|byte| *byte == 0)`
unfoldable pub position_nul : List ℕ → Option ℕ
position_nul [] = none
position_nul (byte ∷ bytes) =
    if byte == 0 then some 0 else elim (position_nul bytes) [ none ↦ none | some i ↦ some (i + 1) ]

-- `match position { Some(i) => i, None => len as usize }`
nul_or : Option ℕ → ℕ → ℕ
nul_or none len = len
nul_or (some i) len = i

-- A slice in host memory.
pub record Slice : Type 0 where
  pub address : ℕ
  pub len : ℕ

module _ (rt : Runtime) where
  -- `Err(e.into())`
  abbrev pub fail : {A : Type 0} → SyscallError rt.Utf8Error → Syscall rt A
  fail e = throw (syscall_error e)

  unfoldable pub translate : MemoryMapping → AccessType → ℕ → ℕ → Outcome (Error rt) ℕ
  translate memory_mapping access_type vm_addr len =
      elim (memory_mapping.map access_type vm_addr len) [
        | ok host_addr ↦ ok host_addr
        | err e ↦ err (ebpf_error e)
        | panic ↦ panic
      ]

  unfoldable pub translate_type_inner :
      TypeLayout → MemoryMapping → AccessType → ℕ → Bool → Syscall rt ℕ
  translate_type_inner type memory_mapping access_type vm_addr check_aligned = do
    host_addr ← lift (translate memory_mapping access_type vm_addr type.size_of)
    if not check_aligned
        then pure host_addr
        else if not (address_is_aligned type host_addr)
        then fail unaligned_pointer
        else pure host_addr

  unfoldable pub translate_slice_inner :
      TypeLayout → MemoryMapping → AccessType → ℕ → ℕ → Bool → Bool → Syscall rt Slice
  translate_slice_inner type memory_mapping access_type vm_addr len check_aligned check_size =
      if len == 0
      then pure (record { address = rt.dangling; len = 0 })
      else let total_size = saturating_mul len type.size_of in
        if check_size && leb (2 ^ 63) total_size then fail invalid_length else do
          host_addr ← lift (translate memory_mapping access_type vm_addr total_size)
          if check_aligned && not (address_is_aligned type host_addr)
              then fail unaligned_pointer
              else pure (record { address = host_addr; len = len })

  abbrev pub translate_slice : TypeLayout → MemoryMapping → ℕ → ℕ → Bool → Bool → Syscall rt Slice
  translate_slice type memory_mapping = translate_slice_inner type memory_mapping AccessType.load

  abbrev pub translate_slice_mut :
      TypeLayout → MemoryMapping → ℕ → ℕ → Bool → Bool → Syscall rt Slice
  translate_slice_mut type memory_mapping =
      translate_slice_inner type memory_mapping AccessType.store

  abbrev pub translate_type : TypeLayout → MemoryMapping → ℕ → Bool → Syscall rt ℕ
  translate_type type memory_mapping = translate_type_inner type memory_mapping AccessType.load

  abbrev pub translate_type_mut : TypeLayout → MemoryMapping → ℕ → Bool → Syscall rt ℕ
  translate_type_mut type memory_mapping = translate_type_inner type memory_mapping AccessType.store

  -- The bytes of a `&[u8]`.
  abbrev pub read : Slice → Syscall rt (List ℕ)
  read slice = gets (λ machine. Host.load machine.host slice.address slice.len)

  -- `buf.get(..i)` up to the first zero byte, or to the end.
  unfoldable pub truncated : List ℕ → ℕ → Syscall rt (List ℕ)
  unfolding nul_or
  truncated buf len =
      lift (ok_or (range 0 (nul_or (position_nul buf) len) buf) (syscall_error invalid_length))

  -- `from_utf8(msg)`, where the error keeps the message.
  unfoldable pub as_utf8 : List ℕ → Syscall rt (List ℕ)
  as_utf8 msg = elim (rt.utf8_error msg) [ none ↦ pure msg | some e ↦ fail (invalid_string e msg) ]

  unfoldable pub translate_string_and_do :
      MemoryMapping → ℕ → ℕ → Bool → Bool → Bool → (List ℕ → Syscall rt ℕ) → Syscall rt ℕ
  translate_string_and_do memory_mapping addr len check_aligned check_size stop_truncating work = do
    slice ← translate_slice u8 memory_mapping addr len check_aligned check_size
    buf ← read slice
    msg ← if stop_truncating then pure buf else truncated buf len
    message ← as_utf8 msg
    work message

  -- The seeds, each an address and a length in the slice at `at`.
  unfoldable pub translate_seeds : MemoryMapping → Bool → Bool → ℕ → ℕ → Syscall rt (List (List ℕ))
  translate_seeds memory_mapping check_aligned check_size at zero = pure []
  translate_seeds memory_mapping check_aligned check_size at (suc rounds) = do
    pointer ← gets (λ machine. from_le_bytes (Host.load machine.host at 8))
    len ← gets (λ machine. from_le_bytes (Host.load machine.host (at + 8) 8))
    if ltb rt.max_seed_len len then fail bad_seeds else do
      slice ← translate_slice u8 memory_mapping pointer len check_aligned check_size
      seed ← read slice
      seeds ← translate_seeds memory_mapping check_aligned check_size (at + 16) rounds
      pure (seed ∷ seeds)

  unfoldable pub translate_and_check_program_address_inputs :
      ℕ → ℕ → ℕ → MemoryMapping → Bool → Bool → Syscall rt (List (List ℕ) × ℕ)
  translate_and_check_program_address_inputs seeds_addr seeds_len program_id_addr memory_mapping
        check_aligned check_size =
      do
        untranslated ←
            translate_slice fat_pointer memory_mapping seeds_addr seeds_len check_aligned check_size
        if ltb rt.max_seeds untranslated.len then fail bad_seeds else do
          seeds ←
              translate_seeds memory_mapping check_aligned check_size untranslated.address
                untranslated.len
          at ← translate_type pubkey memory_mapping program_id_addr check_aligned
          program_id ← gets (λ machine. from_be_bytes (Host.load machine.host at 32))
          pure (seeds, program_id)
