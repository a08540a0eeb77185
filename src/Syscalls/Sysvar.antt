-- ===== src/Syscalls/Sysvar.antt =====
-- src/instruction_executor/syscalls/sysvar.rs: a sysvar copied to the program.
use solana_bpf_simulator.Prelude.{ℕ, Bool, List}
use solana_bpf_simulator.Prelude.Outcome.{Outcome, ok, err, panic}
use solana_bpf_simulator.Prelude.Method.{pure, gets, lift, ◌>>=◌, ◌>>◌}
use solana_bpf_simulator.InstructionExecutor.Context.{get_check_aligned}
use solana_bpf_simulator.Syscalls.Types.{
  instruction_error, MemoryMapping, TypeLayout, Runtime, Error, Syscall, Builtin,
}
use solana_bpf_simulator.Syscalls.Translate.{translate_type_mut}
use solana_bpf_simulator.Syscalls.Program.{write_host}

module _ (rt : Runtime) where
  -- `sysvar?`, with the sysvar by its bytes.
  unfoldable pub available : Outcome rt.InstructionError (List ℕ) → Outcome (Error rt) (List ℕ)
  available (ok bytes) = ok bytes
  available (err e) = err (instruction_error e)
  available panic = panic

  unfoldable pub get_sysvar :
      TypeLayout → Outcome rt.InstructionError (List ℕ) → ℕ → Bool → MemoryMapping → Syscall rt ℕ
  get_sysvar type sysvar var_addr check_aligned memory_mapping = do
    var ← translate_type_mut rt type memory_mapping var_addr check_aligned
    bytes ← lift (available sysvar)
    write_host rt var bytes
    pure 0

  unfoldable pub syscall_get_clock_sysvar : Builtin rt
  syscall_get_clock_sysvar var_addr _ _ _ _ memory_mapping = do
    check_aligned ← gets (λ machine. get_check_aligned machine.context)
    sysvar ← gets (λ machine. rt.get_clock machine.context.sysvars)
    get_sysvar rt.clock sysvar var_addr check_aligned memory_mapping
