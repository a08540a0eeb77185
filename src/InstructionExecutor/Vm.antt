-- ===== src/InstructionExecutor/Vm.antt =====
-- The virtual machine of solana_rbpf, which stands outside this repository: what the executor calls
-- of it. An error is given by its text, which is all that the executor keeps of one.
use Prim.Native.String.{String}
use solana_bpf_simulator.Prelude.{ℕ, Bool, Option, List}
use solana_bpf_simulator.Prelude.Outcome.{Outcome}
use solana_bpf_simulator.Memory.{AlignedMemory}
use solana_bpf_simulator.InstructionExecutor.Context.{InvokeContext}

-- `StableResult`
pub data StableResult : Type 0 where
  ok : ℕ → StableResult
  err : String → StableResult

-- What a run leaves behind: its result, the context, and the three writable regions.
pub record Run (Memory SysvarCache LogCollector : Type 0) : Type 0 where
  pub result : StableResult
  pub context : InvokeContext SysvarCache LogCollector
  pub stack : Memory
  pub heap : Memory
  pub input : Memory

pub record Vm (mem : AlignedMemory) : Type 1 where
  pub SysvarCache : Type 0
  pub LogCollector : Type 0
  pub Registry : Type 0
  pub BuiltinProgram : Type 0
  pub Executable : Type 0
  pub default_cache : SysvarCache
  pub stack_size : ℕ
  -- `BuiltinProgram::new_loader` under a configuration with this `max_call_depth` and this
  -- `external_internal_function_hash_collision`, the rest by default.
  pub new_loader : ℕ → Bool → Registry → BuiltinProgram
  pub from_elf : List ℕ → BuiltinProgram → Outcome String Executable
  -- Whether the build has the compiler: x86_64, and not Windows.
  pub has_jit : Bool
  pub jit_compile : Executable → Outcome String Executable
  pub is_compiled : Executable → Bool
  -- `MemoryMapping::new` over the stack, the heap and the input buffer, `EbpfVm::new`, and
  -- `execute_program` with the flag that asks for the interpreter; `none` is a panic.
  pub run :
      BuiltinProgram
      → Executable
      → InvokeContext SysvarCache LogCollector
      → mem.Memory
      → mem.Memory
      → mem.Memory
      → Bool
      → Option (Run mem.Memory SysvarCache LogCollector)
