-- ===== src/Syscalls/ReturnData.antt =====
-- src/instruction_executor/syscalls/mod.rs: `SyscallSetReturnData` and `SyscallGetReturnData`.
pub mod RoundTrip
use solana_bpf_simulator.Prelude.{ℕ, not, List, [], length, ltb, ◌==◌, if◌then◌else◌, min}
use solana_bpf_simulator.Prelude.Slices.{range}
use solana_bpf_simulator.Prelude.Bytes.{be_bytes}
use solana_bpf_simulator.Prelude.Outcome.{ok_or}
use solana_bpf_simulator.Prelude.Method.{pure, gets, modify, lift, ◌>>=◌, ◌>>◌}
use solana_bpf_simulator.InstructionExecutor.Context.{get_check_aligned, get_check_size}
use solana_bpf_simulator.Syscalls.Types.{
  invoke_context_borrow_failed, copy_overlapping, return_data_too_large, invalid_length,
  syscall_error, MemoryMapping, u8, pubkey, Runtime, Machine, Syscall, Builtin,
}
use solana_bpf_simulator.Syscalls.Translate.{
  is_nonoverlapping, fail, translate_slice, translate_slice_mut, translate_type_mut, read,
}
use solana_bpf_simulator.Syscalls.Program.{write_host}

module _ (rt : Runtime) where
  -- `translate_slice(..)?.to_vec()` of `SyscallSetReturnData`.
  unfoldable pub read_return_data : ℕ → ℕ → MemoryMapping → Syscall rt (List ℕ)
  read_return_data addr len memory_mapping = do
    check_aligned ← gets (λ machine. get_check_aligned machine.context)
    check_size ← gets (λ machine. get_check_size machine.context)
    slice ← translate_slice rt u8 memory_mapping addr len check_aligned check_size
    read rt slice

  unfoldable pub syscall_set_return_data : Builtin rt
  syscall_set_return_data addr len _ _ _ memory_mapping =
      if ltb rt.max_return_data len
      then fail rt (return_data_too_large len rt.max_return_data)
      else do
        return_data ← if len == 0 then pure [] else read_return_data addr len memory_mapping
        program_id ← gets (λ machine. machine.context.program_id)
        modify λ machine. record machine {
          context = record (machine.context) { return_data = (program_id, return_data) };
        }
        pure 0

  -- The body under `if length != 0`.
  unfoldable pub copy_return_data : ℕ → ℕ → ℕ → ℕ → List ℕ → MemoryMapping → Syscall rt (Unit {0})
  copy_return_data return_data_addr length_ program_id_addr program_id return_data memory_mapping =
      do
        check_aligned ← gets (λ machine. get_check_aligned machine.context)
        check_size ← gets (λ machine. get_check_size machine.context)
        to_slice ←
            translate_slice_mut rt u8 memory_mapping return_data_addr length_ check_aligned
              check_size
        from_slice ←
            lift (ok_or (range 0 length_ return_data) (syscall_error invoke_context_borrow_failed))
        if not (to_slice.len == length from_slice) then fail rt invalid_length else do
          write_host rt to_slice.address from_slice
          program_id_result ←
              translate_type_mut rt pubkey memory_mapping program_id_addr check_aligned
          if not (is_nonoverlapping to_slice.address length_ program_id_result 32)
              then fail rt copy_overlapping
              else write_host rt program_id_result (be_bytes 32 program_id)

  unfoldable pub syscall_get_return_data : Builtin rt
  syscall_get_return_data return_data_addr asked program_id_addr _ _ memory_mapping = do
    (program_id, return_data) ← gets (λ machine. machine.context.return_data)
    let copied = min asked (length return_data)
    if copied == 0
        then pure tt
        else copy_return_data return_data_addr copied program_id_addr program_id return_data
            memory_mapping
    pure (length return_data)
