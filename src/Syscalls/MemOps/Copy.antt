-- ===== src/Syscalls/MemOps/Copy.antt =====
-- What `SyscallMemcpy` copies, and what it refuses.
use solana_bpf_simulator.Prelude.{ℕ, ◌+◌, ◌≤◌, ◌<◌, ◌≡◌, refl, sym, ◌⊎◌, true, false, List, length}
use solana_bpf_simulator.Prelude.Outcome.{ok, err}
use solana_bpf_simulator.Prelude.Method.{◌>>=◌}
use solana_bpf_simulator.Words.{u64_mod}
use solana_bpf_simulator.InstructionExecutor.Context.{get_check_aligned, get_check_size}
use solana_bpf_simulator.Syscalls.Host
use solana_bpf_simulator.Syscalls.Host.{length-load, load-store, store_outside}
use solana_bpf_simulator.Syscalls.Types.{
  AccessType, syscall_error, copy_overlapping, MemoryMapping, Runtime, Machine,
}
use solana_bpf_simulator.Syscalls.Translate.{is_nonoverlapping}
use solana_bpf_simulator.Syscalls.Translate.Overlap.{translate_slice_ok}
use solana_bpf_simulator.Syscalls.MemOps.{ptr_copy, memmove, syscall_memcpy}

module _ (rt : Runtime) (memory_mapping : MemoryMapping) (machine : Machine rt)
    (dst_addr src_addr n arg4 arg5 : ℕ) where
  pub memmove_lem :
      (dst src : ℕ)
      → 0 < n
      → n < u64_mod
      → memory_mapping.map AccessType.store dst_addr n ≡ ok dst
      → memory_mapping.map AccessType.load src_addr n ≡ ok src
      → memmove rt dst_addr src_addr n memory_mapping machine
        ≡ ok (
          0,
          record machine { host = Host.store machine.host dst (Host.load machine.host src n) },
        )
  unfolding memmove ptr_copy get_check_aligned get_check_size
  memmove_lem dst src p q e f =
      rw
        (
          memmove,
          get_check_aligned,
          get_check_size,
          ◌>>=◌,
          translate_slice_ok rt memory_mapping AccessType.store dst_addr n dst machine p q e,
          ◌>>=◌,
          translate_slice_ok rt memory_mapping AccessType.load src_addr n src machine p q f,
        )
        refl

  -- Ranges that do not overlap and that the mapping knows, of at least one byte: the destination then
  -- holds what the source held, and nothing else changes in the host's memory or the context, also
  -- where the two lie over each other on the host.
  pub syscall_memcpy_lem :
      (dst src : ℕ)
      → 0 < n
      → n < u64_mod
      → memory_mapping.map AccessType.store dst_addr n ≡ ok dst
      → memory_mapping.map AccessType.load src_addr n ≡ ok src
      → is_nonoverlapping src_addr n dst_addr n ≡ true
      → (after : Machine rt) × (syscall_memcpy rt dst_addr src_addr n arg4 arg5 memory_mapping
            machine
          ≡ ok (0, after))
        × (after.context ≡ machine.context)
        × (Host.load after.host dst n ≡ Host.load machine.host src n)
        × ((a : ℕ) → (a < dst) ⊎ (dst + n ≤ a) → after.host a ≡ machine.host a)
  unfolding syscall_memcpy
  syscall_memcpy_lem dst src p q e f apart = (
    record machine { host = Host.store machine.host dst bytes },
    rw apart (memmove_lem dst src p q e f),
    refl,
    load-store machine.host dst n bytes (sym count),
    λ a h. store_outside machine.host dst a bytes (rw count h),
  )
    where
      bytes : List ℕ
      bytes = Host.load machine.host src n

      count : length bytes ≡ n
      count = length-load machine.host src n

  -- Overlapping ranges are refused.
  pub syscall_memcpy_overlapping :
      is_nonoverlapping src_addr n dst_addr n ≡ false
      → syscall_memcpy rt dst_addr src_addr n arg4 arg5 memory_mapping machine
        ≡ err (syscall_error copy_overlapping, machine)
  unfolding syscall_memcpy
  syscall_memcpy_overlapping h = rw h refl
