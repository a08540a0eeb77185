-- ===== src/MessageExecutor/Types.antt =====
-- What the message executor uses of the Solana SDK: keys, messages and the errors of a transaction. A key
-- is the number that its 32 bytes spell, most significant first, so that keys are ordered as in Rust.
use Prim.Native.String.{String}
use solana_bpf_simulator.Prelude.{ℕ, List}

-- The fixed keys that the loaders compare with.
pub record Ids : Type 0 where
  pub native_loader : ℕ
  pub sysvar : ℕ
  pub instructions_sysvar : ℕ
  pub loader_v4 : ℕ
  pub bpf_loader_upgradeable : ℕ
  pub bpf_loader : ℕ
  pub bpf_loader_deprecated : ℕ

-- `SanitizedMessage`, as far as it is read: its keys, the program index of each of its instructions, and
-- what `construct_instructions_data` makes of its instructions.
pub record Message : Type 0 where
  pub account_keys : List ℕ
  pub program_id_indices : List ℕ
  pub instructions_data : List ℕ

-- `anyhow::Error`: the values of `TransactionError` that the loaders make, and an error of another part
-- by its text.
pub data Error : Type 0 where
  account_not_found program_account_not_found call_chain_too_deep : Error
  message : String → Error
