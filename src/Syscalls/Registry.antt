-- ===== src/Syscalls/Registry.antt =====
-- `get_syscalls` of src/instruction_executor/syscalls/mod.rs: the syscalls that a program finds, by name.
use Prim.Native.String.{String}
use solana_bpf_simulator.Prelude.{List, [], ◌∷◌}
use solana_bpf_simulator.Prelude.Outcome.{Outcome, ok, ◌>>=◌}
use solana_bpf_simulator.Syscalls.Types.{Runtime, Builtin}
use solana_bpf_simulator.Syscalls.Program.{
  syscall_abort, syscall_panic, syscall_log, syscall_try_find_program_address,
}
use solana_bpf_simulator.Syscalls.ReturnData.{syscall_set_return_data, syscall_get_return_data}
use solana_bpf_simulator.Syscalls.MemOps.{syscall_memcpy}
use solana_bpf_simulator.Syscalls.Sysvar.{syscall_get_clock_sysvar}

module _ (rt : Runtime) where
  -- The names and handlers, in the order in which they are registered.
  abbrev pub syscalls : List (String × Builtin rt)
  syscalls =
      ("abort", syscall_abort rt)
      ∷ ("sol_panic_", syscall_panic rt)
      ∷ ("sol_log_", syscall_log rt)
      ∷ ("sol_try_find_program_address", syscall_try_find_program_address rt)
      ∷ ("sol_get_clock_sysvar", syscall_get_clock_sysvar rt)
      ∷ ("sol_memcpy_", syscall_memcpy rt)
      ∷ ("sol_set_return_data", syscall_set_return_data rt)
      ∷ ("sol_get_return_data", syscall_get_return_data rt)
      ∷ []

  -- `FunctionRegistry` of solana_rbpf is a parameter: an empty registry, and
  -- `register_function_hashed`, which fails when two names have one hash.
  module _ {FunctionRegistry Failure : Type 0} (empty : FunctionRegistry)
      (register : FunctionRegistry → String → Builtin rt → Outcome Failure FunctionRegistry) where
    unfoldable pub register_all :
        List (String × Builtin rt) → FunctionRegistry → Outcome Failure FunctionRegistry
    register_all [] registry = ok registry
    register_all ((name, handler) ∷ rest) registry =
        register registry name handler >>= register_all rest

    unfoldable pub get_syscalls : Outcome Failure FunctionRegistry
    get_syscalls = register_all syscalls empty
