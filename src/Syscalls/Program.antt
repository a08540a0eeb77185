-- ===== src/Syscalls/Program.antt =====
-- src/instruction_executor/syscalls/mod.rs: `SyscallAbort`, `SyscallPanic`, `SyscallLog` and
-- `SyscallTryFindProgramAddress`. An argument that a syscall does not read is `_`.
pub mod Search
use solana_bpf_simulator.Prelude.{
  ℕ, zero, suc, true, false, not, none, some, List, [], ◌∷◌, ◌++◌, if◌then◌else◌,
}
use solana_bpf_simulator.Prelude.Bytes.{be_bytes}
use solana_bpf_simulator.Prelude.Method.{pure, gets, modify, ◌>>=◌, ◌>>◌}
use solana_bpf_simulator.Words.{saturating_sub}
use solana_bpf_simulator.InstructionExecutor.Context.{get_check_aligned, get_check_size}
use solana_bpf_simulator.Syscalls.Host
use solana_bpf_simulator.Syscalls.Types.{
  SyscallError, copy_overlapping, MemoryMapping, u8, Runtime, Machine, Syscall, Builtin,
}
use solana_bpf_simulator.Syscalls.Translate.{
  is_nonoverlapping, fail, translate_slice, translate_slice_mut, translate_type_mut, read,
  truncated, as_utf8, translate_string_and_do, translate_and_check_program_address_inputs,
}

module _ (rt : Runtime) where
  -- A write into host memory.
  abbrev pub write_host : ℕ → List ℕ → Syscall rt (Unit {0})
  write_host at bytes = modify λ machine. record machine { host = Host.store machine.host at bytes }

  unfoldable pub syscall_abort : Builtin rt
  syscall_abort _ _ _ _ _ _ = fail rt SyscallError.abort

  unfoldable pub syscall_panic : Builtin rt
  syscall_panic file len line column _ memory_mapping = do
    check_aligned ← gets (λ machine. get_check_aligned machine.context)
    check_size ← gets (λ machine. get_check_size machine.context)
    slice ← translate_slice rt u8 memory_mapping file len check_aligned check_size
    buf ← read rt slice
    msg ← truncated rt buf len
    message ← as_utf8 rt msg
    fail rt (SyscallError.panic message line column)

  -- "Program log: "
  abbrev pub log_prefix : List ℕ
  log_prefix = 80 ∷ 114 ∷ 111 ∷ 103 ∷ 114 ∷ 97 ∷ 109 ∷ 32 ∷ 108 ∷ 111 ∷ 103 ∷ 58 ∷ 32 ∷ []

  -- The closure of `SyscallLog`; its debug output is left out.
  unfoldable pub log_line : List ℕ → Syscall rt ℕ
  log_line string machine = elim machine.context.log_collector [
    | none ↦ pure 0 machine
    | some collector ↦ pure 0 (record machine {
      context = record (machine.context) {
        log_collector = some (rt.log collector (log_prefix ++ string));
      };
    })
  ]

  unfoldable pub syscall_log : Builtin rt
  syscall_log addr len _ _ _ memory_mapping = do
    check_aligned ← gets (λ machine. get_check_aligned machine.context)
    check_size ← gets (λ machine. get_check_size machine.context)
    translate_string_and_do rt memory_mapping addr len check_aligned check_size true (log_line)
    pure 0

  -- The inner block, where the address was found.
  unfoldable pub write_program_address : MemoryMapping → ℕ → ℕ → ℕ → ℕ → Syscall rt ℕ
  write_program_address memory_mapping address_addr bump_seed_addr bump_seed new_address = do
    bump_seed_ref ← translate_type_mut rt u8 memory_mapping bump_seed_addr false
    address ← translate_slice_mut rt u8 memory_mapping address_addr 32 false false
    if not (is_nonoverlapping bump_seed_ref 1 address.address 32)
        then fail rt copy_overlapping
        else do
          write_host bump_seed_ref (bump_seed ∷ [])
          write_host address.address (be_bytes 32 new_address)
          pure 0

  -- The loop, for as many rounds as are left.
  unfoldable pub find_loop : MemoryMapping → List (List ℕ) → ℕ → ℕ → ℕ → ℕ → ℕ → Syscall rt ℕ
  find_loop memory_mapping seeds program_id address_addr bump_seed_addr zero bump_seed = pure 1
  find_loop memory_mapping seeds program_id address_addr bump_seed_addr (suc rounds) bump_seed =
      elim (rt.create_program_address (seeds ++ ((bump_seed ∷ []) ∷ [])) program_id) [
        | some new_address ↦
            write_program_address memory_mapping address_addr bump_seed_addr bump_seed new_address
        | none ↦
            find_loop memory_mapping seeds program_id address_addr bump_seed_addr rounds
              (saturating_sub bump_seed 1)
      ]

  unfoldable pub syscall_try_find_program_address : Builtin rt
  syscall_try_find_program_address seeds_addr seeds_len program_id_addr address_addr bump_seed_addr
        memory_mapping =
      do
        (seeds, program_id) ←
            translate_and_check_program_address_inputs rt seeds_addr seeds_len program_id_addr
              memory_mapping false false
        find_loop memory_mapping seeds program_id address_addr bump_seed_addr 255 255
