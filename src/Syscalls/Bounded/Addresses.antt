-- ===== src/Syscalls/Bounded/Addresses.antt =====
-- The size of the return data under the search for a program address.
use solana_bpf_simulator.Prelude.{
  ℕ, zero, suc, ◌+◌, Bool, not, false, Option, none, some, List, [], ◌∷◌, ◌++◌, ltb,
}
use solana_bpf_simulator.Prelude.Bytes.{from_le_bytes, from_be_bytes, be_bytes}
use solana_bpf_simulator.Prelude.Method.{gets}
use solana_bpf_simulator.Words.{saturating_sub}
use solana_bpf_simulator.Syscalls.Host.{load}
use solana_bpf_simulator.Syscalls.Types.{
  bad_seeds, copy_overlapping, fat_pointer, pubkey, syscall_error, AccessType, MemoryMapping, u8,
  Runtime,
}
use solana_bpf_simulator.Syscalls.Translate.{
  read, fail, is_nonoverlapping, translate_type_inner, translate_slice_inner, translate_seeds,
  translate_and_check_program_address_inputs,
}
use solana_bpf_simulator.Syscalls.Program.{
  write_host, write_program_address, find_loop, syscall_try_find_program_address,
}
use solana_bpf_simulator.Syscalls.Bounded.{
  Keeps, pure-Keeps, throw-Keeps, gets-Keeps, bind-Keeps, cond-Keeps, write_host-Keeps,
  translate_type_inner-Keeps, translate_slice_inner-Keeps,
}

module _ (rt : Runtime) where
  translate_seeds-Keeps :
      (memory_mapping : MemoryMapping) (b c : Bool) (at n : ℕ)
      → Keeps rt (translate_seeds rt memory_mapping b c at n)
  unfolding translate_seeds
  translate_seeds-Keeps memory_mapping b c at zero = pure-Keeps rt []
  translate_seeds-Keeps memory_mapping b c at (suc n) =
      bind-Keeps rt (gets (λ machine. from_le_bytes (load machine.host at 8))) _ (gets-Keeps rt _)
        λ pointer.
          bind-Keeps rt (gets (λ machine. from_le_bytes (load machine.host (at + 8) 8))) _
            (gets-Keeps rt _)
            λ len.
              cond-Keeps rt (ltb rt.max_seed_len len) (fail rt bad_seeds) _
                (throw-Keeps rt _ (syscall_error bad_seeds))
                (bind-Keeps rt
                  (translate_slice_inner rt u8 memory_mapping AccessType.load pointer len b c) _
                  (translate_slice_inner-Keeps rt _ _ _ _ _ _ _)
                  λ slice. bind-Keeps rt (read rt slice) _ (gets-Keeps rt _) λ seed.
                    bind-Keeps rt (translate_seeds rt memory_mapping b c (at + 16) n) _
                      (translate_seeds-Keeps memory_mapping b c (at + 16) n)
                      λ seeds. pure-Keeps rt (seed ∷ seeds))

  translate_and_check_program_address_inputs-Keeps :
      (a n p : ℕ) (memory_mapping : MemoryMapping) (b c : Bool)
      → Keeps rt (translate_and_check_program_address_inputs rt a n p memory_mapping b c)
  unfolding translate_and_check_program_address_inputs
  translate_and_check_program_address_inputs-Keeps a n p memory_mapping b c =
      bind-Keeps rt (translate_slice_inner rt fat_pointer memory_mapping AccessType.load a n b c) _
        (translate_slice_inner-Keeps rt _ _ _ _ _ _ _)
        λ slice.
          cond-Keeps rt (ltb rt.max_seeds slice.len) (fail rt bad_seeds) _
            (throw-Keeps rt _ (syscall_error bad_seeds))
            (bind-Keeps rt (translate_seeds rt memory_mapping b c slice.address slice.len) _
              (translate_seeds-Keeps _ _ _ _ _)
              λ seeds.
                bind-Keeps rt (translate_type_inner rt pubkey memory_mapping AccessType.load p b) _
                  (translate_type_inner-Keeps rt _ _ _ _ _)
                  λ at.
                    bind-Keeps rt (gets (λ machine. from_be_bytes (load machine.host at 32))) _
                      (gets-Keeps rt _) λ id. pure-Keeps rt (seeds, id))

  write_program_address-Keeps :
      (memory_mapping : MemoryMapping) (a b bump address : ℕ)
      → Keeps rt (write_program_address rt memory_mapping a b bump address)
  unfolding write_program_address
  write_program_address-Keeps memory_mapping a b bump address =
      bind-Keeps rt (translate_type_inner rt u8 memory_mapping AccessType.store b false) _
        (translate_type_inner-Keeps rt _ _ _ _ _)
        λ r.
          bind-Keeps rt
            (translate_slice_inner rt u8 memory_mapping AccessType.store a 32 false false) _
            (translate_slice_inner-Keeps rt _ _ _ _ _ _ _)
            λ slice.
              cond-Keeps rt (not (is_nonoverlapping r 1 slice.address 32))
                (fail rt copy_overlapping) _ (throw-Keeps rt _ (syscall_error copy_overlapping))
                (bind-Keeps rt (write_host rt r (bump ∷ [])) _ (write_host-Keeps rt _ _) λ u.
                  bind-Keeps rt (write_host rt slice.address (be_bytes 32 address)) _
                    (write_host-Keeps rt _ _) λ v. pure-Keeps rt 0)

  find_loop-Keeps :
      (memory_mapping : MemoryMapping) (seeds : List (List ℕ)) (id a b n bump : ℕ)
      → Keeps rt (find_loop rt memory_mapping seeds id a b n bump)
  unfolding find_loop
  find_loop-Keeps memory_mapping seeds id a b zero bump = pure-Keeps rt 1
  find_loop-Keeps memory_mapping seeds id a b (suc n) bump =
      go (rt.create_program_address (seeds ++ ((bump ∷ []) ∷ [])) id)
        (find_loop-Keeps memory_mapping seeds id a b n (saturating_sub bump 1))
    where
      go :
          (o : Option ℕ)
          → Keeps rt (find_loop rt memory_mapping seeds id a b n (saturating_sub bump 1))
          → Keeps rt (elim o [
            | some new_address ↦ write_program_address rt memory_mapping a b bump new_address
            | none ↦ find_loop rt memory_mapping seeds id a b n (saturating_sub bump 1)
          ])
      go (some address) k = write_program_address-Keeps memory_mapping a b bump address
      go none k = k

  pub syscall_try_find_program_address-Keeps :
      (a b c d e : ℕ) (memory_mapping : MemoryMapping)
      → Keeps rt (syscall_try_find_program_address rt a b c d e memory_mapping)
  unfolding syscall_try_find_program_address
  syscall_try_find_program_address-Keeps a b c d e memory_mapping =
      bind-Keeps rt (translate_and_check_program_address_inputs rt a b c memory_mapping false false)
        _ (translate_and_check_program_address_inputs-Keeps _ _ _ _ _ _)
        λ input. find_loop-Keeps memory_mapping input.0 input.1 d e 255 255
