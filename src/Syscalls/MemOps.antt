-- ===== src/Syscalls/MemOps.antt =====
-- src/instruction_executor/syscalls/mem_ops.rs: `memmove`, `SyscallMemcpy`, and the iterator that cuts
-- a range of the program's memory into pieces that each lie in one region.
pub mod Copy
pub mod Chunks
pub mod Pairs
use solana_bpf_simulator.Prelude.{
  ℕ, zero, suc, ◌+◌, ◌-◌, Bool, not, Option, none, some, ltb, leb, ◌==◌, if◌then◌else◌,
}
use solana_bpf_simulator.Prelude.Outcome.{Outcome, ok, err, panic}
use solana_bpf_simulator.Prelude.Method.{pure, gets, ◌>>=◌, ◌>>◌}
use solana_bpf_simulator.Words.{u64_mod, saturating_sub}
use solana_bpf_simulator.InstructionExecutor.Context.{get_check_aligned, get_check_size}
use solana_bpf_simulator.Syscalls.Host
use solana_bpf_simulator.Syscalls.Types.{
  copy_overlapping, AccessType, EbpfError, access_violation, stack_access_violation, ErrorObj,
  ebpf_error, MemoryRegion, MemoryMapping, u8, Runtime, Machine, Error, Syscall, Builtin,
}
use solana_bpf_simulator.Syscalls.Translate.{
  is_nonoverlapping, fail, translate_slice, translate_slice_mut,
}
use solana_bpf_simulator.Syscalls.Program.{write_host}

module _ (rt : Runtime) where
  -- `std::ptr::copy`, for which the two ranges may overlap.
  unfoldable pub ptr_copy : ℕ → ℕ → ℕ → Syscall rt (Unit {0})
  ptr_copy src_ptr dst_ptr n = do
    bytes ← gets (λ machine. Host.load machine.host src_ptr n)
    write_host rt dst_ptr bytes

  unfoldable pub memmove : ℕ → ℕ → ℕ → MemoryMapping → Syscall rt ℕ
  memmove dst_addr src_addr n memory_mapping = do
    check_aligned ← gets (λ machine. get_check_aligned machine.context)
    check_size ← gets (λ machine. get_check_size machine.context)
    dst ← translate_slice_mut rt u8 memory_mapping dst_addr n check_aligned check_size
    src ← translate_slice rt u8 memory_mapping src_addr n check_aligned check_size
    ptr_copy src.address dst.address n
    pure 0

  unfoldable pub syscall_memcpy : Builtin rt
  syscall_memcpy dst_addr src_addr n _ _ memory_mapping =
      if not (is_nonoverlapping src_addr n dst_addr n)
      then fail rt copy_overlapping
      else memmove dst_addr src_addr n memory_mapping

-- `MemoryChunkIterator`; `len` and `initial_vm_addr` serve its error messages.
pub record MemoryChunkIterator : Type 0 where
  pub memory_mapping : MemoryMapping
  pub access_type : AccessType
  pub initial_vm_addr : ℕ
  pub vm_addr_start : ℕ
  pub vm_addr_end : ℕ
  pub len : ℕ

pub record Chunk : Type 0 where
  pub region : MemoryRegion
  pub vm_addr : ℕ
  pub len : ℕ

unfoldable pub new : MemoryMapping → AccessType → ℕ → ℕ → Outcome EbpfError MemoryChunkIterator
new memory_mapping access_type vm_addr len =
    if ltb (vm_addr + len) u64_mod
    then ok (record {
      memory_mapping = memory_mapping;
      access_type = access_type;
      initial_vm_addr = vm_addr;
      vm_addr_start = vm_addr;
      vm_addr_end = vm_addr + len;
      len = len;
    })
    else err (access_violation access_type vm_addr len "unknown")

-- An access violation is reported for the range as a whole.
unfoldable pub widened : MemoryChunkIterator → EbpfError → EbpfError
widened it (access_violation access_type _ _ name) =
    access_violation access_type it.initial_vm_addr it.len name
widened it (stack_access_violation access_type _ _ frame) =
    stack_access_violation access_type it.initial_vm_addr it.len frame
widened it (EbpfError.other e) = EbpfError.other e

unfoldable pub region : MemoryChunkIterator → ℕ → Outcome EbpfError MemoryRegion
region it vm_addr = elim (it.memory_mapping.region it.access_type vm_addr) [
  | ok r ↦ ok r
  | err e ↦ err (widened it e)
  | panic ↦ panic
]

abbrev pub Next : Type 0
Next = Outcome (EbpfError × MemoryChunkIterator) (Chunk × MemoryChunkIterator)

-- The chunk from `vm_addr_start` on; both sides of the comparison move it.
unfoldable pub front_chunk : MemoryChunkIterator → MemoryRegion → Chunk × MemoryChunkIterator
front_chunk it r =
    if leb r.vm_addr_end it.vm_addr_end
    then (
      record {
        region = r;
        vm_addr = it.vm_addr_start;
        len = saturating_sub r.vm_addr_end it.vm_addr_start;
      },
      record it { vm_addr_start = r.vm_addr_end },
    )
    else (
      record {
        region = r;
        vm_addr = it.vm_addr_start;
        len = saturating_sub it.vm_addr_end it.vm_addr_start;
      },
      record it { vm_addr_start = it.vm_addr_end },
    )

-- `next`: `none` at the end. After an error the iterator is at its end.
unfoldable pub next : MemoryChunkIterator → Option Next
next it =
    if it.vm_addr_start == it.vm_addr_end
    then none
    else some (elim (region it it.vm_addr_start) [
      | ok r ↦ ok (front_chunk it r)
      | err e ↦ err (e, record it { vm_addr_start = it.vm_addr_end })
      | panic ↦ panic
    ])

unfoldable pub back_chunk : MemoryChunkIterator → MemoryRegion → Chunk × MemoryChunkIterator
back_chunk it r =
    if leb it.vm_addr_start r.vm_addr
    then (
      record { region = r; vm_addr = r.vm_addr; len = saturating_sub it.vm_addr_end r.vm_addr },
      record it { vm_addr_end = r.vm_addr },
    )
    else (
      record {
        region = r;
        vm_addr = it.vm_addr_start;
        len = saturating_sub it.vm_addr_end it.vm_addr_start;
      },
      record it { vm_addr_end = it.vm_addr_start },
    )

unfoldable pub next_back : MemoryChunkIterator → Option Next
next_back it =
    if it.vm_addr_start == it.vm_addr_end
    then none
    else some (elim (region it (saturating_sub it.vm_addr_end 1)) [
      | ok r ↦ ok (back_chunk it r)
      | err e ↦ err (e, record it { vm_addr_start = it.vm_addr_end })
      | panic ↦ panic
    ])
