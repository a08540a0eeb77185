-- ===== src/Syscalls/Bounded/Handlers.antt =====
-- All the syscalls of the registry together.
use Prim.Native.String.{String}
use solana_bpf_simulator.Prelude.{ℕ, All}
use solana_bpf_simulator.Syscalls.Types.{
  SyscallError, syscall_error, MemoryMapping, Runtime, Builtin,
}
use solana_bpf_simulator.Syscalls.Program.{syscall_abort}
use solana_bpf_simulator.Syscalls.Registry.{syscalls}
use solana_bpf_simulator.Syscalls.Bounded.{Keeps, throw-Keeps}
use solana_bpf_simulator.Syscalls.Bounded.Messages.{syscall_panic-Keeps, syscall_log-Keeps}
use solana_bpf_simulator.Syscalls.Bounded.Addresses.{syscall_try_find_program_address-Keeps}
use solana_bpf_simulator.Syscalls.Bounded.Data.{
  syscall_memcpy-Keeps, syscall_get_clock_sysvar-Keeps, syscall_get_return_data-Keeps,
  syscall_set_return_data-Keeps,
}

module _ (rt : Runtime) where
  -- The handler leaves the return data within the limit, whatever its arguments and the mapping are.
  unfoldable pub KeepsBound : String × Builtin rt → Type 0
  KeepsBound (name, handler) =
      (a b c d e : ℕ) (memory_mapping : MemoryMapping) → Keeps rt (handler a b c d e memory_mapping)

  -- Whatever syscall a program calls, with whatever arguments, mapping and memory, and whether it ends
  -- with a value or an error: return data within the limit of the runtime stays within it.
  pub syscalls-KeepsBound : All KeepsBound (syscalls rt)
  unfolding KeepsBound syscall_abort
  syscalls-KeepsBound = (
    λ a b c d e memory_mapping. throw-Keeps rt ℕ (syscall_error SyscallError.abort),
    (
      syscall_panic-Keeps rt,
      (
        syscall_log-Keeps rt,
        (
          syscall_try_find_program_address-Keeps rt,
          (
            syscall_get_clock_sysvar-Keeps rt,
            (
              syscall_memcpy-Keeps rt,
              (syscall_set_return_data-Keeps rt, (syscall_get_return_data-Keeps rt, tt)),
            ),
          ),
        ),
      ),
    ),
  )
