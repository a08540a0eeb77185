-- ===== src/Syscalls/Program/Search.antt =====
-- The search of `SyscallTryFindProgramAddress` for a bump seed.
use solana_bpf_simulator.Prelude.{
  ℕ, zero, suc, ◌+◌, ◌≤◌, ◌<◌, ◌≡◌, refl, sym, subst, ◌∙◌, ◌⊎◌, inl, inr, none, some, List, [], ◌∷◌,
  ◌++◌, true, false, length, arith,
}
use solana_bpf_simulator.Prelude.Outcome.{ok}
use solana_bpf_simulator.Prelude.Method.{◌>>=◌}
use solana_bpf_simulator.Words.{saturating_sub}
use solana_bpf_simulator.Prelude.Bytes.{be_bytes, length-be_bytes}
use solana_bpf_simulator.Syscalls.Host
use solana_bpf_simulator.Syscalls.Host.{Host, load-store, load-store_outside, store_outside}
use solana_bpf_simulator.Syscalls.Types.{AccessType, MemoryMapping, u8, Runtime, Machine}
use solana_bpf_simulator.Syscalls.Translate.Overlap.{
  translate_slice_ok, translate_type_ok, is_nonoverlapping_apart,
}
use solana_bpf_simulator.Syscalls.Translate.{
  is_nonoverlapping, translate_and_check_program_address_inputs,
}
use solana_bpf_simulator.Syscalls.Program.{
  find_loop, write_program_address, syscall_try_find_program_address,
}

le_cases : (a b : ℕ) → a ≤ b → (a ≡ b) ⊎ (a < b)
le_cases a b h = omega arith

pred : (n : ℕ) → saturating_sub (suc n) 1 ≡ n
pred n = omega arith

module _ (rt : Runtime) (memory_mapping : MemoryMapping) (seeds : List (List ℕ))
    (program_id address_addr bump_seed_addr : ℕ) where
  abbrev Fails : ℕ → Type 0
  Fails bump = rt.create_program_address (seeds ++ ((bump ∷ []) ∷ [])) program_id ≡ none

  pub find_loop_first :
      (rounds bump address : ℕ)
      → 0 < bump
      → bump ≤ rounds
      → ((b : ℕ) → bump < b → b ≤ rounds → Fails b)
      → rt.create_program_address (seeds ++ ((bump ∷ []) ∷ [])) program_id ≡ some address
      → find_loop rt memory_mapping seeds program_id address_addr bump_seed_addr rounds rounds
        ≡ write_program_address rt memory_mapping address_addr bump_seed_addr bump address
  unfolding find_loop
  find_loop_first zero bump address p q none_above at = absurd (omega arith)
  find_loop_first (suc rounds) bump address p q none_above at =
      elim (le_cases bump (suc rounds) q) [
        | inl e ↦
            rw
              (
                e,
                find_loop,
                subst
                    (λ b.
                      rt.create_program_address (seeds ++ ((b ∷ []) ∷ [])) program_id
                      ≡ some address)
                    e at,
              )
              refl
        | inr l ↦
            rw (find_loop, none_above (suc rounds) l (omega arith), pred rounds)
              (find_loop_first rounds bump address p (omega arith)
                (λ b i j. none_above b i (omega arith)) at)
      ]

  pub find_loop_none :
      (rounds : ℕ)
      → ((b : ℕ) → 0 < b → b ≤ rounds → Fails b)
      → (machine : Machine rt)
      → find_loop rt memory_mapping seeds program_id address_addr bump_seed_addr rounds rounds
          machine
        ≡ ok (1, machine)
  unfolding find_loop
  find_loop_none zero h machine = refl
  find_loop_none (suc rounds) h machine =
      rw (find_loop, h (suc rounds) (omega arith) (omega arith), pred rounds)
        (find_loop_none rounds (λ b i j. h b i (omega arith)) machine)

module _ (rt : Runtime) (memory_mapping : MemoryMapping) (machine : Machine rt)
    (seeds_addr seeds_len program_id_addr address_addr bump_seed_addr program_id : ℕ)
    (seeds : List (List ℕ))
    (inputs : translate_and_check_program_address_inputs rt seeds_addr seeds_len program_id_addr
        memory_mapping false false machine
      ≡ ok ((seeds, program_id), machine)) where
  -- Where the seeds and the program id are read and the mapping knows the two places to write, which do
  -- not overlap on the host: the highest bump seed, of 255 down to 1, that gives an address is the one
  -- found. It and the address are written in those places, and nothing else of the host's memory or of
  -- the context changes.
  pub syscall_try_find_program_address_lem :
      (bump address bump_at address_at : ℕ)
      → 0 < bump
      → bump ≤ 255
      → ((b : ℕ)
          → bump < b
          → b ≤ 255
          → rt.create_program_address (seeds ++ ((b ∷ []) ∷ [])) program_id ≡ none)
      → rt.create_program_address (seeds ++ ((bump ∷ []) ∷ [])) program_id ≡ some address
      → memory_mapping.map AccessType.store bump_seed_addr 1 ≡ ok bump_at
      → memory_mapping.map AccessType.store address_addr 32 ≡ ok address_at
      → is_nonoverlapping bump_at 1 address_at 32 ≡ true
      → (after : Machine rt) × (syscall_try_find_program_address rt seeds_addr seeds_len
            program_id_addr address_addr bump_seed_addr memory_mapping machine
          ≡ ok (0, after))
        × (after.context ≡ machine.context)
        × (Host.load after.host bump_at 1 ≡ bump ∷ [])
        × (Host.load after.host address_at 32 ≡ be_bytes 32 address)
        × ((a : ℕ)
            → (a < bump_at) ⊎ (bump_at + 1 ≤ a)
            → (a < address_at) ⊎ (address_at + 32 ≤ a)
            → after.host a ≡ machine.host a)
  unfolding syscall_try_find_program_address write_program_address
  syscall_try_find_program_address_lem bump address bump_at address_at p q above at e f apart = (
    record machine { host = Host.store noted address_at (be_bytes 32 address) },
    rw
        (
          syscall_try_find_program_address,
          inputs,
          ◌>>=◌,
          find_loop_first rt memory_mapping seeds program_id address_addr bump_seed_addr 255 bump
              address p q above at,
          write_program_address,
          translate_type_ok rt u8 memory_mapping AccessType.store bump_seed_addr bump_at machine e,
          translate_slice_ok rt memory_mapping AccessType.store address_addr 32 address_at machine
              (omega arith) (omega arith) f,
          apart,
        )
        refl,
    refl,
    load-store_outside noted bump_at 1 address_at _
          (rw id_length (is_nonoverlapping_apart bump_at 1 address_at 32 apart))
        ∙ load-store machine.host bump_at 1 (bump ∷ []) refl,
    load-store noted address_at 32 _ (sym id_length),
    λ a h k.
        store_outside noted address_at a _ (rw id_length k)
        ∙ store_outside machine.host bump_at a (bump ∷ []) h,
  )
    where
      noted : Host
      noted = Host.store machine.host bump_at (bump ∷ [])

      id_length : length (be_bytes 32 address) ≡ 32
      id_length = length-be_bytes 32 address

  -- Where the seeds and the program id are read and none of the bump seeds 255 down to 1 gives an
  -- address, the result is 1 and nothing changes. A bump seed of 0 is not tried.
  pub syscall_try_find_program_address-none :
      ((b : ℕ)
        → 0 < b
        → b ≤ 255
        → rt.create_program_address (seeds ++ ((b ∷ []) ∷ [])) program_id ≡ none)
      → syscall_try_find_program_address rt seeds_addr seeds_len program_id_addr address_addr
          bump_seed_addr memory_mapping machine
        ≡ ok (1, machine)
  unfolding syscall_try_find_program_address
  syscall_try_find_program_address-none h =
      rw (syscall_try_find_program_address, inputs, ◌>>=◌)
        (find_loop_none rt memory_mapping seeds program_id address_addr bump_seed_addr 255 h
          machine)
