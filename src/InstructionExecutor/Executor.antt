-- ===== src/InstructionExecutor/Executor.antt =====
-- The struct `InstructionExecutor` of src/instruction_executor/mod.rs and its constructor.
pub mod Methods
pub mod GetAccount
pub mod Isolation
use solana_bpf_simulator.Prelude.{
  ℕ, zero, suc, ◌+◌, true, Option, none, List, [], ◌∷◌, ◌++◌, length,
}
use solana_bpf_simulator.Prelude.Bytes.{le_bytes, be_bytes}
use solana_bpf_simulator.Prelude.Outcome.{Outcome, ok, ◌>>=◌, unwrap}
use solana_bpf_simulator.Words.{add64}
use solana_bpf_simulator.Memory.{AlignedMemory}
use solana_bpf_simulator.InstructionExecutor.Types.{Sdk, Error, AccountSizes}
use solana_bpf_simulator.InstructionExecutor.Buffer.{
  align_offset, fill_write, write, write_all, write_empty_account,
}
use solana_bpf_simulator.InstructionExecutor.Context
use solana_bpf_simulator.InstructionExecutor.Context.{InvokeContext}
use solana_bpf_simulator.InstructionExecutor.Vm.{Vm}

pub record InstructionExecutor (mem : AlignedMemory) (vm : Vm mem) : Type 0 where
  pub context : InvokeContext vm.SysvarCache vm.LogCollector
  pub runtime : vm.BuiltinProgram
  pub instruction_size : ℕ
  pub account_sizes : AccountSizes
  pub instruction_offset : ℕ
  pub account_offsets : List ℕ
  pub program_id_offset : ℕ
  pub buffer : mem.Memory
  pub stack : mem.Memory
  pub heap : mem.Memory
  pub executable : Option vm.Executable

module _ (mem : AlignedMemory) (vm : Vm mem) (sdk : Sdk) where
  abbrev State : Type 0
  State = InstructionExecutor mem vm

  -- The first loop of `new`, from account `i` on for as many rounds as are left.
  unfoldable pub size_loop : AccountSizes → ℕ → ℕ → ℕ → Outcome Error ℕ
  size_loop sizes zero i size = ok size
  size_loop sizes (suc rounds) i size = do
    account_size ← unwrap (sizes.size i)
    let with_dup = add64 size 1
    let with_head = add64 with_dup (1 + 1 + 1 + 4 + 32 + 32 + 8)
    let padding = align_offset account_size sdk.bpf_align_of_u128
    let space = add64 (add64 (add64 8 account_size) padding) sdk.max_permitted_data_increase
    size_loop sizes rounds (i + 1) (add64 (add64 with_head space) 8)

  -- The second loop of `new`: the offset of each account, and its empty slot.
  unfoldable pub slots_loop :
      AccountSizes → ℕ → ℕ → mem.Memory → List ℕ → Outcome Error (mem.Memory × List ℕ)
  slots_loop sizes zero i buffer offsets = ok (buffer, offsets)
  slots_loop sizes (suc rounds) i buffer offsets = do
    let pushed = offsets ++ length (mem.as_slice buffer) ∷ []
    account_size ← unwrap (sizes.size i)
    filled ← write_empty_account mem sdk buffer account_size
    slots_loop sizes rounds (i + 1) filled pushed

  -- `registry` is the result of `get_syscalls()`.
  unfoldable pub new : Outcome Error vm.Registry → ℕ → AccountSizes → Outcome Error State
  new registry instruction_size account_sizes = do
    accounts_size ← size_loop account_sizes account_sizes.len 0 8
    let size = add64 (add64 accounts_size (add64 8 instruction_size)) 32
    (_, b₁) ← write mem (mem.with_capacity size) none (le_bytes 8 account_sizes.len)
    (b₂, offsets) ← slots_loop account_sizes account_sizes.len 0 b₁ []
    let instruction_offset = length (mem.as_slice b₂)
    (_, b₃) ← write mem b₂ none (le_bytes 8 instruction_size)
    (_, b₄) ← fill_write mem b₃ none instruction_size 0
    let program_id_offset = length (mem.as_slice b₄)
    (_, b₅) ← write_all mem b₄ none (be_bytes 32 0)
    functions ← registry
    ok (record {
      context = Context.new vm.default_cache;
      runtime = vm.new_loader 64 true functions;
      instruction_size = instruction_size;
      account_sizes = account_sizes;
      instruction_offset = instruction_offset;
      account_offsets = offsets;
      program_id_offset = program_id_offset;
      buffer = b₅;
      stack = mem.zero_filled vm.stack_size;
      heap = mem.zero_filled sdk.heap_length;
      executable = none;
    })
