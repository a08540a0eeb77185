-- ===== src/Syscalls/Types.antt =====
-- The errors of syscalls (src/instruction_executor/syscall_errors.rs), the state that a syscall works
-- on, and what syscalls use of solana_rbpf, the Solana runtime and SDK, as a record of parameters.
use Prim.Native.String.{String}
use solana_bpf_simulator.Prelude.{ℕ, Option, List}
use solana_bpf_simulator.Prelude.Outcome.{Outcome}
use solana_bpf_simulator.Prelude.Method.{Method}
use solana_bpf_simulator.InstructionExecutor.Context.{InvokeContext}
use solana_bpf_simulator.Syscalls.Host.{Host}

-- A string is given by its bytes.
pub data SyscallError (Utf8Error : Type 0) : Type 0 where
  invalid_string : Utf8Error → List ℕ → SyscallError Utf8Error
  abort : SyscallError Utf8Error
  panic : List ℕ → ℕ → ℕ → SyscallError Utf8Error
  invoke_context_borrow_failed : SyscallError Utf8Error
  malformed_signer_seed : Utf8Error → List ℕ → SyscallError Utf8Error
  bad_seeds program_not_supported unaligned_pointer too_many_signers : SyscallError Utf8Error
  instruction_too_large : ℕ → ℕ → SyscallError Utf8Error
  too_many_accounts copy_overlapping : SyscallError Utf8Error
  return_data_too_large : ℕ → ℕ → SyscallError Utf8Error
  too_many_slices invalid_length : SyscallError Utf8Error
  max_instruction_data_len_exceeded : ℕ → ℕ → SyscallError Utf8Error
  max_instruction_accounts_exceeded : ℕ → ℕ → SyscallError Utf8Error
  max_instruction_account_infos_exceeded : ℕ → ℕ → SyscallError Utf8Error
  invalid_attribute invalid_pointer arithmetic_overflow : SyscallError Utf8Error

-- `AccessType` and `EbpfError` of solana_rbpf, the latter as far as syscalls look into it.
pub data AccessType : Type 0 where
  load store : AccessType

pub data EbpfError : Type 0 where
  access_violation : AccessType → ℕ → ℕ → String → EbpfError
  stack_access_violation : AccessType → ℕ → ℕ → ℕ → EbpfError
  other : String → EbpfError

-- `Box<dyn Error>`
pub data ErrorObj (Utf8Error InstructionError : Type 0) : Type 0 where
  syscall_error : SyscallError Utf8Error → ErrorObj Utf8Error InstructionError
  ebpf_error : EbpfError → ErrorObj Utf8Error InstructionError
  instruction_error : InstructionError → ErrorObj Utf8Error InstructionError

-- `MemoryRegion` and `MemoryMapping` of solana_rbpf; a host address is a number.
pub record MemoryRegion : Type 0 where
  pub vm_addr : ℕ
  pub vm_addr_end : ℕ
  pub vm_to_host : ℕ → ℕ → Outcome EbpfError ℕ

pub record MemoryMapping : Type 0 where
  pub map : AccessType → ℕ → ℕ → Outcome EbpfError ℕ
  pub region : AccessType → ℕ → Outcome EbpfError MemoryRegion

-- `size_of` and `align_of` of a Rust type; the alignment is at least 1.
pub record TypeLayout : Type 0 where
  pub size_of : ℕ
  pub align_of : ℕ

abbrev pub u8 : TypeLayout
u8 = record { size_of = 1; align_of = 1 }

abbrev pub pubkey : TypeLayout
pubkey = record { size_of = 32; align_of = 1 }

-- `&[u8]`, an address and a length.
abbrev pub fat_pointer : TypeLayout
fat_pointer = record { size_of = 16; align_of = 8 }

pub record Runtime : Type 1 where
  pub SysvarCache : Type 0
  pub LogCollector : Type 0
  pub Utf8Error : Type 0
  pub InstructionError : Type 0
  pub max_return_data : ℕ
  pub max_seeds : ℕ
  pub max_seed_len : ℕ
  -- The address of an empty slice that points nowhere.
  pub dangling : ℕ
  -- `from_utf8`, which keeps the bytes; `none` where they are a string.
  pub utf8_error : List ℕ → Option Utf8Error
  pub log : LogCollector → List ℕ → LogCollector
  -- `Pubkey::create_program_address`, where an error of any kind is `none`.
  pub create_program_address : List (List ℕ) → ℕ → Option ℕ
  -- The clock sysvar, by its bytes in memory.
  pub clock : TypeLayout
  pub get_clock : SysvarCache → Outcome InstructionError (List ℕ)

module _ (rt : Runtime) where
  abbrev pub Context : Type 0
  Context = InvokeContext rt.SysvarCache rt.LogCollector

  pub record Machine : Type 0 where
    pub context : Context
    pub host : Host

  abbrev pub Error : Type 0
  Error = ErrorObj rt.Utf8Error rt.InstructionError

  abbrev pub Syscall : Type 0 → Type 0
  Syscall = Method Machine Error

  -- The five registers that a program passes.
  abbrev pub Builtin : Type 0
  Builtin = ℕ → ℕ → ℕ → ℕ → ℕ → MemoryMapping → Syscall ℕ
