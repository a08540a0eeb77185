-- ===== src/Syscalls/Bounded/Data.antt =====
-- The size of the return data under the syscalls that copy memory, read the clock, and read and write
-- the return data itself.
use solana_bpf_simulator.Prelude.{
  ℕ, ◌≤◌, ◌≡◌, refl, not, false, List, length, ltb, ◌==◌, if◌then◌else◌, inl, inr, Bool-cases, min,
  arith,
}
use solana_bpf_simulator.Prelude.Slices.{range}
use solana_bpf_simulator.Prelude.Bytes.{be_bytes}
use solana_bpf_simulator.Prelude.Outcome.{Outcome, ok, err, panic, ok_or}
use solana_bpf_simulator.Prelude.Method.{pure, gets, lift, ◌>>=◌}
use solana_bpf_simulator.Words.{saturating_mul}
use solana_bpf_simulator.InstructionExecutor.Context.{get_check_aligned, get_check_size}
use solana_bpf_simulator.Syscalls.Host.{load, length-load}
use solana_bpf_simulator.Syscalls.Types.{
  copy_overlapping, invalid_length, invoke_context_borrow_failed, pubkey, syscall_error, AccessType,
  EbpfError, MemoryMapping, u8, Runtime,
}
use solana_bpf_simulator.Syscalls.Translate.{
  fail, is_nonoverlapping, translate, translate_type_inner, translate_slice_inner,
}
use solana_bpf_simulator.Syscalls.Program.{write_host}
use solana_bpf_simulator.Syscalls.ReturnData.{
  read_return_data, syscall_set_return_data, copy_return_data, syscall_get_return_data,
}
use solana_bpf_simulator.Syscalls.MemOps.{ptr_copy, memmove, syscall_memcpy}
use solana_bpf_simulator.Syscalls.Sysvar.{available, get_sysvar, syscall_get_clock_sysvar}
use solana_bpf_simulator.Syscalls.Bounded.{
  EndsBounded, Keeps, pure-Keeps, throw-Keeps, lift-Keeps, gets-Keeps, bind-Keeps, cond-Keeps,
  write_host-Keeps, translate_type_inner-Keeps, translate_slice_inner-Keeps,
}

module _ (rt : Runtime) where
  pub syscall_memcpy-Keeps :
      (a b c d e : ℕ) (memory_mapping : MemoryMapping)
      → Keeps rt (syscall_memcpy rt a b c d e memory_mapping)
  unfolding syscall_memcpy memmove ptr_copy get_check_aligned get_check_size
  syscall_memcpy-Keeps a b c d e memory_mapping =
      cond-Keeps rt (not (is_nonoverlapping b c a c)) (fail rt copy_overlapping) _
        (throw-Keeps rt _ (syscall_error copy_overlapping))
        (bind-Keeps rt (translate_slice_inner rt u8 memory_mapping AccessType.store a c false false)
          _ (translate_slice_inner-Keeps rt _ _ _ _ _ _ _)
          λ dst.
            bind-Keeps rt
              (translate_slice_inner rt u8 memory_mapping AccessType.load b c false false) _
              (translate_slice_inner-Keeps rt _ _ _ _ _ _ _)
              λ src.
                bind-Keeps rt (ptr_copy rt src.address dst.address c) _
                  (bind-Keeps rt (gets (λ machine. load machine.host src.address c)) _
                    (gets-Keeps rt _) λ bytes. write_host-Keeps rt dst.address bytes)
                  λ u. pure-Keeps rt 0)

  pub syscall_get_clock_sysvar-Keeps :
      (a b c d e : ℕ) (memory_mapping : MemoryMapping)
      → Keeps rt (syscall_get_clock_sysvar rt a b c d e memory_mapping)
  unfolding syscall_get_clock_sysvar get_sysvar get_check_aligned
  syscall_get_clock_sysvar-Keeps a b c d e memory_mapping =
      bind-Keeps rt (gets (λ machine. rt.get_clock machine.context.sysvars)) _ (gets-Keeps rt _)
        λ sysvar.
          bind-Keeps rt (translate_type_inner rt rt.clock memory_mapping AccessType.store a false) _
            (translate_type_inner-Keeps rt _ _ _ _ _)
            λ var. bind-Keeps rt (lift (available rt sysvar)) _ (lift-Keeps rt _) λ bytes.
              bind-Keeps rt (write_host rt var bytes) _ (write_host-Keeps rt _ _)
                λ u. pure-Keeps rt 0

  copy_return_data-Keeps :
      (a n p id : ℕ) (bytes : List ℕ) (memory_mapping : MemoryMapping)
      → Keeps rt (copy_return_data rt a n p id bytes memory_mapping)
  unfolding copy_return_data get_check_aligned get_check_size
  copy_return_data-Keeps a n p id bytes memory_mapping =
      bind-Keeps rt (translate_slice_inner rt u8 memory_mapping AccessType.store a n false false) _
        (translate_slice_inner-Keeps rt _ _ _ _ _ _ _)
        λ to.
          bind-Keeps rt
            (lift (ok_or (range 0 n bytes) (syscall_error invoke_context_borrow_failed))) _
            (lift-Keeps rt _)
            λ from.
              cond-Keeps rt (not (to.len == length from)) (fail rt invalid_length) _
                (throw-Keeps rt _ (syscall_error invalid_length))
                (bind-Keeps rt (write_host rt to.address from) _ (write_host-Keeps rt _ _) λ u.
                  bind-Keeps rt
                    (translate_type_inner rt pubkey memory_mapping AccessType.store p false) _
                    (translate_type_inner-Keeps rt _ _ _ _ _)
                    λ r.
                      cond-Keeps rt (not (is_nonoverlapping to.address n r 32))
                        (fail rt copy_overlapping) _
                        (throw-Keeps rt _ (syscall_error copy_overlapping))
                        (write_host-Keeps rt r (be_bytes 32 id)))

  pub syscall_get_return_data-Keeps :
      (a b c d e : ℕ) (memory_mapping : MemoryMapping)
      → Keeps rt (syscall_get_return_data rt a b c d e memory_mapping)
  unfolding syscall_get_return_data
  syscall_get_return_data-Keeps a b c d e memory_mapping =
      bind-Keeps rt (gets (λ machine. machine.context.return_data)) _ (gets-Keeps rt _) λ kept.
        bind-Keeps rt
          (if min b (length kept.1) == 0
            then pure tt
            else copy_return_data rt a (min b (length kept.1)) c kept.0 kept.1 memory_mapping)
          _
          (cond-Keeps rt _ _ _ (pure-Keeps rt tt)
            (copy_return_data-Keeps a (min b (length kept.1)) c kept.0 kept.1 memory_mapping))
          λ u. pure-Keeps rt (length kept.1)

  pub syscall_set_return_data-Keeps :
      (a b c d e : ℕ) (memory_mapping : MemoryMapping)
      → Keeps rt (syscall_set_return_data rt a b c d e memory_mapping)
  unfolding syscall_set_return_data read_return_data translate_slice_inner translate
      get_check_aligned get_check_size Keeps EndsBounded
  syscall_set_return_data-Keeps a b c d e memory_mapping machine h =
      elim (Bool-cases (ltb rt.max_return_data b)) [
        | inl over ↦ rw over h
        | inr within ↦ elim (Bool-cases (b == 0)) [
          | inl zero_len ↦ rw (within, zero_len) (omega arith)
          | inr some_len ↦
              go within some_len (memory_mapping.map AccessType.load a (saturating_mul b 1)) refl
        ]
      ]
    where
      not_over : ltb rt.max_return_data b ≡ false → b ≤ rt.max_return_data
      not_over k = ground arith

      go :
          ltb rt.max_return_data b ≡ false
          → (b == 0) ≡ false
          → (o : Outcome EbpfError ℕ)
          → memory_mapping.map AccessType.load a (saturating_mul b 1) ≡ o
          → EndsBounded rt (syscall_set_return_data rt a b c d e memory_mapping machine)
      go within some_len (ok at) q =
          rw
            (
              within,
              some_len,
              ◌>>=◌,
              get_check_aligned,
              get_check_size,
              translate,
              q,
              length-load machine.host at b,
            )
            (not_over within)
      go within some_len (err x) q =
          rw (within, some_len, ◌>>=◌, get_check_aligned, get_check_size, translate, q) h
      go within some_len panic q =
          rw (within, some_len, ◌>>=◌, get_check_aligned, get_check_size, translate, q) tt
