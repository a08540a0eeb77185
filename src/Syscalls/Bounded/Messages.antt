-- ===== src/Syscalls/Bounded/Messages.antt =====
-- The size of the return data under the syscalls that print.
use solana_bpf_simulator.Prelude.{ℕ, true, false, Option, none, some, List, inl, inr, Option-cases}
use solana_bpf_simulator.Prelude.Method.{pure}
use solana_bpf_simulator.InstructionExecutor.Context.{get_check_aligned, get_check_size}
use solana_bpf_simulator.Syscalls.Types.{
  SyscallError, invalid_string, syscall_error, AccessType, MemoryMapping, u8, Runtime,
}
use solana_bpf_simulator.Syscalls.Translate.{
  read, fail, translate_slice_inner, truncated, as_utf8, translate_string_and_do,
}
use solana_bpf_simulator.Syscalls.Program.{syscall_panic, log_line, syscall_log}
use solana_bpf_simulator.Syscalls.Bounded.{
  EndsBounded, Keeps, pure-Keeps, throw-Keeps, lift-Keeps, gets-Keeps, bind-Keeps,
  translate_slice_inner-Keeps,
}

module _ (rt : Runtime) where
  as_utf8-Keeps : (msg : List ℕ) → Keeps rt (as_utf8 rt msg)
  unfolding as_utf8
  as_utf8-Keeps msg = go (rt.utf8_error msg)
    where
      go :
          (o : Option rt.Utf8Error)
          → Keeps rt (elim o [ none ↦ pure msg | some e ↦ fail rt (invalid_string e msg) ])
      go none = pure-Keeps rt msg
      go (some e) = throw-Keeps rt _ _

  log_line-Keeps : (string : List ℕ) → Keeps rt (log_line rt string)
  unfolding log_line Keeps EndsBounded
  log_line-Keeps string machine h = elim (Option-cases machine.context.log_collector) [
    | inl e ↦ rw e h
    | inr (c, e) ↦ rw e h
  ]

  pub syscall_panic-Keeps :
      (a b c d e : ℕ) (memory_mapping : MemoryMapping)
      → Keeps rt (syscall_panic rt a b c d e memory_mapping)
  unfolding syscall_panic truncated get_check_aligned get_check_size
  syscall_panic-Keeps a b c d e memory_mapping =
      bind-Keeps rt (translate_slice_inner rt u8 memory_mapping AccessType.load a b false false) _
        (translate_slice_inner-Keeps rt _ _ _ _ _ _ _)
        λ slice. bind-Keeps rt (read rt slice) _ (gets-Keeps rt _) λ buf.
          bind-Keeps rt (truncated rt buf b) _ (lift-Keeps rt _) λ msg.
            bind-Keeps rt (as_utf8 rt msg) _ (as_utf8-Keeps msg)
              λ message. throw-Keeps rt ℕ (syscall_error (SyscallError.panic message c d))

  pub syscall_log-Keeps :
      (a b c d e : ℕ) (memory_mapping : MemoryMapping)
      → Keeps rt (syscall_log rt a b c d e memory_mapping)
  unfolding syscall_log translate_string_and_do get_check_aligned get_check_size
  syscall_log-Keeps a b c d e memory_mapping =
      bind-Keeps rt (translate_string_and_do rt memory_mapping a b false false true (log_line rt)) _
        (bind-Keeps rt (translate_slice_inner rt u8 memory_mapping AccessType.load a b false false)
          _ (translate_slice_inner-Keeps rt _ _ _ _ _ _ _)
          λ slice.
            bind-Keeps rt (read rt slice) _ (gets-Keeps rt _)
              λ buf. bind-Keeps rt (as_utf8 rt buf) _ (as_utf8-Keeps buf) log_line-Keeps)
        λ r. pure-Keeps rt 0
