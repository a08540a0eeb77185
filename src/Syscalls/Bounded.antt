-- ===== src/Syscalls/Bounded.antt =====
-- Calls that keep the size of the return data within the limit of the runtime, and how they compose.
pub mod Messages
pub mod Addresses
pub mod Data
pub mod Handlers
use Prim.Native.String.{String}
use solana_bpf_simulator.Prelude.{
  ℕ, zero, suc, ◌+◌, ◌≤◌, ◌≡◌, refl, Bool, not, true, false, Option, none, some, List, [], ◌∷◌,
  ◌++◌, length, All, ltb, ◌==◌, if◌then◌else◌, inl, inr, Bool-cases, Option-cases, min, arith,
}
use solana_bpf_simulator.Prelude.Slices.{range}
use solana_bpf_simulator.Prelude.Bytes.{from_le_bytes, from_be_bytes, be_bytes}
use solana_bpf_simulator.Prelude.Outcome.{Outcome, ok, err, panic, ok_or}
use solana_bpf_simulator.Prelude.Method.{pure, throw, gets, lift, ◌>>=◌}
use solana_bpf_simulator.Words.{saturating_sub, saturating_mul}
use solana_bpf_simulator.InstructionExecutor.Context.{get_check_aligned, get_check_size}
use solana_bpf_simulator.Syscalls.Host.{load, length-load}
use solana_bpf_simulator.Syscalls.Types.{
  SyscallError, bad_seeds, copy_overlapping, invalid_length, invoke_context_borrow_failed,
  fat_pointer, pubkey, invalid_string, syscall_error, unaligned_pointer, AccessType, EbpfError,
  MemoryMapping, TypeLayout, u8, Runtime, Machine, Error, Syscall, Builtin,
}
use solana_bpf_simulator.Syscalls.Translate.{
  read, address_is_aligned, fail, is_nonoverlapping, translate, translate_type_inner,
  translate_slice_inner, truncated, as_utf8, translate_string_and_do, translate_seeds,
  translate_and_check_program_address_inputs,
}
use solana_bpf_simulator.Syscalls.Program.{
  write_host, syscall_abort, syscall_panic, log_line, syscall_log, write_program_address, find_loop,
  syscall_try_find_program_address,
}
use solana_bpf_simulator.Syscalls.ReturnData.{
  read_return_data, syscall_set_return_data, copy_return_data, syscall_get_return_data,
}
use solana_bpf_simulator.Syscalls.MemOps.{ptr_copy, memmove, syscall_memcpy}
use solana_bpf_simulator.Syscalls.Sysvar.{available, get_sysvar, syscall_get_clock_sysvar}
use solana_bpf_simulator.Syscalls.Registry.{syscalls}

module _ (rt : Runtime) where
  -- The return data of the context is no longer than the runtime allows.
  abbrev pub IsBounded : Machine rt → Type 0
  IsBounded machine = length machine.context.return_data.1 ≤ rt.max_return_data

  -- A call that ends with a value or an error leaves such a machine.
  unfoldable pub EndsBounded :
      {A : Type 0} → Outcome (Error rt × Machine rt) (A × Machine rt) → Type 0
  EndsBounded (ok (_, machine)) = IsBounded machine
  EndsBounded (err (_, machine)) = IsBounded machine
  EndsBounded panic = Unit {0}

  unfoldable pub Keeps : {A : Type 0} → Syscall rt A → Type 0
  Keeps call = (machine : Machine rt) → IsBounded machine → EndsBounded (call machine)

  pub pure-Keeps : {A : Type 0} (a : A) → Keeps (pure a)
  unfolding Keeps EndsBounded
  pure-Keeps a machine h = h

  pub throw-Keeps : (A : Type 0) (e : Error rt) → Keeps {A = A} (throw e)
  unfolding Keeps EndsBounded
  throw-Keeps A e machine h = h

  pub lift-Keeps : {A : Type 0} (o : Outcome (Error rt) A) → Keeps (lift o)
  unfolding Keeps EndsBounded
  lift-Keeps (ok a) machine h = h
  lift-Keeps (err e) machine h = h
  lift-Keeps panic machine h = tt

  pub gets-Keeps : {A : Type 0} (f : Machine rt → A) → Keeps (gets f)
  unfolding Keeps EndsBounded
  gets-Keeps f machine h = h

  pub bind-Keeps :
      {A B : Type 0} (m : Syscall rt A) (f : A → Syscall rt B)
      → Keeps m
      → ((a : A) → Keeps (f a))
      → Keeps (m >>= f)
  unfolding Keeps EndsBounded
  bind-Keeps {A} {B} m f k l machine h = go (m machine) (k machine h)
    where
      go :
          (o : Outcome (Error rt × Machine rt) (A × Machine rt))
          → EndsBounded o
          → EndsBounded {A = B} (elim o [ ok (a, t) ↦ f a t | err x ↦ err x | panic ↦ panic ])
      go (ok (a, t)) i = l a t i
      go (err x) i = i
      go panic i = tt

  pub cond-Keeps :
      {A : Type 0} (b : Bool) (m n : Syscall rt A) → Keeps m → Keeps n → Keeps (if b then m else n)
  cond-Keeps true m n k l = k
  cond-Keeps false m n k l = l

  pub write_host-Keeps : (at : ℕ) (bytes : List ℕ) → Keeps (write_host rt at bytes)
  unfolding Keeps EndsBounded
  write_host-Keeps at bytes machine h = h

  pub translate_type_inner-Keeps :
      (type : TypeLayout) (memory_mapping : MemoryMapping) (access_type : AccessType) (vm_addr : ℕ)
      (check_aligned : Bool)
      → Keeps (translate_type_inner rt type memory_mapping access_type vm_addr check_aligned)
  unfolding translate_type_inner
  translate_type_inner-Keeps type memory_mapping access_type vm_addr check_aligned =
      bind-Keeps (lift (translate rt memory_mapping access_type vm_addr type.size_of)) _
        (lift-Keeps _)
        λ host_addr. cond-Keeps (not check_aligned) (pure host_addr) _ (pure-Keeps host_addr) (
          cond-Keeps (not (address_is_aligned type host_addr)) (fail rt unaligned_pointer)
            (pure host_addr) (throw-Keeps ℕ (syscall_error unaligned_pointer))
            (pure-Keeps host_addr))

  pub translate_slice_inner-Keeps :
      (type : TypeLayout) (memory_mapping : MemoryMapping) (access_type : AccessType)
      (vm_addr len : ℕ) (check_aligned check_size : Bool)
      → Keeps (
          translate_slice_inner rt type memory_mapping access_type vm_addr len check_aligned
            check_size)
  unfolding translate_slice_inner
  translate_slice_inner-Keeps type memory_mapping access_type vm_addr len check_aligned check_size =
      cond-Keeps _ _ _ (pure-Keeps _) (
        cond-Keeps _ _ _ (throw-Keeps _ _) (
          bind-Keeps
            (lift
              (translate rt memory_mapping access_type vm_addr (saturating_mul len type.size_of)))
            _ (lift-Keeps _) λ host_addr. cond-Keeps _ _ _ (throw-Keeps _ _) (pure-Keeps _)))
