-- ===== src/Syscalls/ReturnData/RoundTrip.antt =====
-- Return data that one program sets and another one gets.
use solana_bpf_simulator.Prelude.{
  ℕ, ◌+◌, ◌-◌, ◌≤◌, ◌<◌, ◌≡◌, refl, sym, subst, ◌∙◌, ◌⊎◌, true, false, some, List, length, take,
  length-take, ◌==◌, ==_iff, le→ltb, le→leb, min, arith,
}
use solana_bpf_simulator.Prelude.Slices.{range, cut}
use solana_bpf_simulator.Prelude.Bytes.{be_bytes, length-be_bytes}
use solana_bpf_simulator.Prelude.Outcome.{ok}
use solana_bpf_simulator.Prelude.Method.{◌>>=◌, ◌>>◌}
use solana_bpf_simulator.Words.{u64_mod}
use solana_bpf_simulator.InstructionExecutor.Context.{get_check_aligned, get_check_size}
use solana_bpf_simulator.Syscalls.Host
use solana_bpf_simulator.Syscalls.Host.{
  length-load, take-load, load-store, load-store_outside, store_outside,
}
use solana_bpf_simulator.Syscalls.Types.{AccessType, MemoryMapping, pubkey, Runtime, Machine}
use solana_bpf_simulator.Syscalls.Translate.{is_nonoverlapping}
use solana_bpf_simulator.Syscalls.Translate.Overlap.{
  translate_slice_ok, translate_type_ok, is_nonoverlapping_apart,
}
use solana_bpf_simulator.Syscalls.ReturnData.{
  read_return_data, syscall_set_return_data, copy_return_data, syscall_get_return_data,
}

sub_zero : (n : ℕ) → n - 0 ≡ n
sub_zero n = omega arith

module _ (rt : Runtime) where
  -- The machine with other return data.
  abbrev pub with_return_data : Machine rt → ℕ × List ℕ → Machine rt
  with_return_data machine return_data = record machine {
    context = record (machine.context) { return_data = return_data };
  }

  -- Data of at least one byte and within the limit is kept under the id of the program.
  pub syscall_set_return_data_lem :
      (memory_mapping : MemoryMapping) (machine : Machine rt) (addr len at arg3 arg4 arg5 : ℕ)
      → 0 < len
      → len ≤ rt.max_return_data
      → len < u64_mod
      → memory_mapping.map AccessType.load addr len ≡ ok at
      → syscall_set_return_data rt addr len arg3 arg4 arg5 memory_mapping machine
        ≡ ok (
          0,
          with_return_data machine (machine.context.program_id, Host.load machine.host at len),
        )
  unfolding syscall_set_return_data read_return_data get_check_aligned get_check_size
  syscall_set_return_data_lem memory_mapping machine addr len at arg3 arg4 arg5 p q r e =
      rw
        (
          le→ltb rt.max_return_data len q,
          ne,
          ◌>>=◌,
          read_return_data,
          get_check_aligned,
          get_check_size,
          translate_slice_ok rt memory_mapping AccessType.load addr len at machine p r e,
        )
        refl
    where
      ne : (len == 0) ≡ false
      ne = ground arith

  range_front : (n : ℕ) (l : List ℕ) → n ≤ length l → range 0 n l ≡ some (take n l)
  unfolding range cut
  range_front n l h = rw (le→leb 0 n (omega arith), le→leb n (length l) h, sub_zero n) refl

  -- The host's memory after both writes of `SyscallGetReturnData`.
  abbrev pub written : Machine rt → ℕ → List ℕ → ℕ → ℕ → Machine rt
  written machine to bytes id_at id = record machine {
    host = Host.store (Host.store machine.host to bytes) id_at (be_bytes 32 id);
  }

  copy_return_data_lem :
      (memory_mapping : MemoryMapping) (machine : Machine rt)
      (return_data_addr program_id_addr to id_at id copied : ℕ) (data_bytes : List ℕ)
      → copied ≤ length data_bytes
      → 0 < copied
      → copied < u64_mod
      → memory_mapping.map AccessType.store return_data_addr copied ≡ ok to
      → memory_mapping.map AccessType.store program_id_addr 32 ≡ ok id_at
      → is_nonoverlapping to copied id_at 32 ≡ true
      → copy_return_data rt return_data_addr copied program_id_addr id data_bytes memory_mapping
          machine
        ≡ ok (tt, written machine to (take copied data_bytes) id_at id)
  unfolding copy_return_data get_check_aligned get_check_size
  copy_return_data_lem memory_mapping machine return_data_addr program_id_addr to id_at id copied
        data_bytes h p q e f apart =
      rw
        (
          copy_return_data,
          get_check_aligned,
          get_check_size,
          ◌>>=◌,
          translate_slice_ok rt memory_mapping AccessType.store return_data_addr copied to machine p
              q e,
          ◌>>=◌,
          range_front copied data_bytes h,
          same,
          ◌>>=◌,
          ◌>>◌,
          translate_type_ok rt pubkey memory_mapping AccessType.store program_id_addr id_at
              (record machine { host = Host.store machine.host to (take copied data_bytes) }) f,
          apart,
        )
        refl
    where
      same : (copied == length (take copied data_bytes)) ≡ true
      same =
          (==_iff copied (length (take copied data_bytes))).1
            (omega (arith, length-take copied data_bytes))

  pub syscall_get_return_data_lem :
      (memory_mapping : MemoryMapping) (machine : Machine rt)
      (return_data_addr asked program_id_addr arg4 arg5 to id_at copied : ℕ)
      → copied ≡ min asked (length machine.context.return_data.1)
      → 0 < copied
      → copied < u64_mod
      → memory_mapping.map AccessType.store return_data_addr copied ≡ ok to
      → memory_mapping.map AccessType.store program_id_addr 32 ≡ ok id_at
      → is_nonoverlapping to copied id_at 32 ≡ true
      → syscall_get_return_data rt return_data_addr asked program_id_addr arg4 arg5 memory_mapping
          machine
        ≡ ok (
          length machine.context.return_data.1,
          written machine to
              (take copied machine.context.return_data.1)
              id_at
              machine.context.return_data.0,
        )
  unfolding syscall_get_return_data
  syscall_get_return_data_lem memory_mapping machine return_data_addr asked program_id_addr arg4
        arg5 to id_at copied count p q e f apart =
      rw
        (
          sym count,
          ne,
          ◌>>◌,
          ◌>>=◌,
          copy_return_data_lem memory_mapping machine return_data_addr program_id_addr to id_at
              machine.context.return_data.0 copied machine.context.return_data.1 (omega arith) p q e
              f apart,
        )
        refl
    where
      ne : (copied == 0) ≡ false
      ne = ground arith

  -- Where both mappings know the ranges, the data set has at least one byte and is within the limit, at
  -- least one byte is asked for, and the two places to write do not overlap on the host: what one
  -- program sets, another one gets: the data from its first byte on, as many bytes as there
  -- are and are asked for, and the id of the program that set it. The host's memory changes in those two
  -- places only, and the number returned is the length of all the data.
  pub get_return_data-set_return_data :
      (setter getter : MemoryMapping) (machine : Machine rt)
      (addr len return_data_addr asked program_id_addr at to id_at copied : ℕ)
      → 0 < len
      → len ≤ rt.max_return_data
      → len < u64_mod
      → setter.map AccessType.load addr len ≡ ok at
      → copied ≡ min asked len
      → 0 < copied
      → getter.map AccessType.store return_data_addr copied ≡ ok to
      → getter.map AccessType.store program_id_addr 32 ≡ ok id_at
      → is_nonoverlapping to copied id_at 32 ≡ true
      → (set after : Machine rt) × (syscall_set_return_data rt addr len 0 0 0 setter machine
          ≡ ok (0, set))
        × (syscall_get_return_data rt return_data_addr asked program_id_addr 0 0 getter set
            ≡ ok (len, after))
        × (Host.load after.host to copied ≡ Host.load machine.host at copied)
        × (Host.load after.host id_at 32 ≡ be_bytes 32 machine.context.program_id)
        × ((a : ℕ)
            → (a < to) ⊎ (to + copied ≤ a)
            → (a < id_at) ⊎ (id_at + 32 ≤ a)
            → after.host a ≡ machine.host a)
  get_return_data-set_return_data setter getter machine addr len return_data_addr asked
        program_id_addr at to id_at copied p q r e count c f g apart =
      (
        set,
        after,
        syscall_set_return_data_lem setter machine addr len at 0 0 0 p q r e,
        subst Returned (length-load machine.host at len) (
            syscall_get_return_data_lem getter set return_data_addr asked program_id_addr 0 0 to
              id_at copied (rw (length-load machine.host at len) count) c (omega arith) f g apart),
        load-store_outside _ to copied id_at _ aside
            ∙ load-store machine.host to copied front front_length
            ∙ take-load machine.host at copied len (omega arith),
        load-store _ id_at 32 _ (sym id_length),
        λ a h k.
            store_outside _ id_at a _ (rw id_length k)
            ∙ store_outside machine.host to a front (rw⁻¹ front_length h),
      )
    where
      front : List ℕ
      front = take copied (Host.load machine.host at len)

      front_length : copied ≡ length front
      front_length = omega (
        arith,
        length-take copied (Host.load machine.host at len),
        length-load machine.host at len,
      )

      id_length : length (be_bytes 32 machine.context.program_id) ≡ 32
      id_length = length-be_bytes 32 machine.context.program_id

      aside : (to + copied ≤ id_at) ⊎ (id_at + length (be_bytes 32 machine.context.program_id) ≤ to)
      aside = rw id_length (is_nonoverlapping_apart to copied id_at 32 apart)

      set : Machine rt
      set = with_return_data machine (machine.context.program_id, Host.load machine.host at len)

      after : Machine rt
      after = written set to front id_at machine.context.program_id

      Returned : ℕ → Type 0
      Returned n =
          syscall_get_return_data rt return_data_addr asked program_id_addr 0 0 getter set
          ≡ ok (n, after)
