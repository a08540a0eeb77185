-- ===== src/InstructionExecutor/Types.antt =====
-- The errors (src/instruction_executor/errors.rs), the account sizes (account_sizes.rs), and the
-- constants and values of the Solana SDK that the executor uses.
use Prim.Native.String.{String}
use solana_bpf_simulator.Prelude.{ℕ, Bool, Option, some, List, length, get_elem?}

-- The constants of `solana_sdk::entrypoint` and the like, which stand outside this repository.
pub record Sdk : Type 0 where
  pub bpf_align_of_u128 : ℕ
  pub max_permitted_data_increase : ℕ
  pub non_dup_marker : ℕ
  pub heap_length : ℕ
  pub success : ℕ

-- The values of `solana_sdk::instruction::InstructionError` that the executor makes.
pub data InstructionError : Type 0 where
  invalid_argument : InstructionError
  from_code : ℕ → InstructionError

-- `anyhow::Error` as the executor throws it: `InstructionExecutorError`, `InstructionError`, the I/O
-- error of a full buffer, and the text of an error of the virtual machine.
pub data Error : Type 0 where
  invalid_instruction invalid_account missing_program : Error
  instruction_error : InstructionError → Error
  io_error : Error
  message : String → Error

-- The trait `AccountSizes`; `none` is a panic.
pub record AccountSizes : Type 0 where
  pub len : ℕ
  pub size : ℕ → Option ℕ

-- `impl AccountSizes for Vec<usize>`
abbrev pub vec_sizes : List ℕ → AccountSizes
vec_sizes sizes = record { len = length sizes; size = get_elem? sizes }

-- `impl AccountSizes for (usize, usize)`
abbrev pub pair_sizes : ℕ × ℕ → AccountSizes
pair_sizes (count, size) = record { len = count; size = λ _. some size }

-- `solana_sdk::account::Account`. A key is the number that its 32 bytes spell, most significant first.
pub record Account : Type 0 where
  pub lamports : ℕ
  pub data_bytes : List ℕ
  pub owner : ℕ
  pub executable : Bool
  pub rent_epoch : ℕ
