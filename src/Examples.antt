-- ===== src/Examples.antt =====
-- examples/raw/examples/check.rs, `run_ro`: a client of the instruction executor, which runs the
-- example program once over one account.
pub mod Placed
pub mod Prepared
pub mod RunRo
pub mod Replaced
pub mod Refresh
mod Tests
use Prim.Native.String.{String}
use solana_bpf_simulator.Prelude.{
  ℕ, ◌+◌, Bool, true, false, Option, none, some, List, [], ◌∷◌, map, length,
}
use solana_bpf_simulator.Prelude.Outcome.{Outcome, ok, err, panic, ◌>>=◌}
use solana_bpf_simulator.Prelude.Method.{pure, ◌>>◌}
use solana_bpf_simulator.Memory.{AlignedMemory}
use solana_bpf_simulator.InstructionExecutor.Types.{Sdk, Error, Account, vec_sizes}
use solana_bpf_simulator.InstructionExecutor.Layout.{default_account}
use solana_bpf_simulator.InstructionExecutor.Vm.{Vm}
use solana_bpf_simulator.InstructionExecutor.Executor.{InstructionExecutor, new}
use solana_bpf_simulator.InstructionExecutor.Executor.Methods.{
  Action, update_program, update_instruction, update_account, execute,
}
use solana_bpf_simulator.CommandLine.{AccountMeta}

-- What is outside of the process: the answer of the node on an account, where `none` is an error, and
-- the bytes of a file.
pub record Outside (LogCollector : Type 0) : Type 0 where
  pub get_account : ℕ → Option Account
  pub read_file : String → Outcome Error (List ℕ)
  pub system_program : ℕ
  -- `LogCollector::new_ref()`
  pub new_log : LogCollector

-- `pubkey!("DUMMYPRoGRAM1111111111111111111111111111111")`
abbrev pub dummy_program : ℕ
dummy_program = 1445096278116931047874048396616944836413842328248897440089262886990859206656

-- How a run ends: with an error of `execute` or without, and the log either way.
pub data Report (LogCollector : Type 0) : Type 0 where
  errored : Error → LogCollector → Report LogCollector
  logged : LogCollector → Report LogCollector

-- `RpcClient::get_account(key).unwrap_or_default()`
unfoldable pub unwrap_or_default : Option Account → Account
unwrap_or_default (some account) = account
unwrap_or_default none = default_account

-- `AccountMeta::new_readonly(key, false)`
unfoldable pub new_readonly : ℕ → AccountMeta
new_readonly key = record { pubkey = key; is_signer = false; is_writable = false }

module _ (mem : AlignedMemory) (vm : Vm mem) (sdk : Sdk) where
  -- The loop over the accounts, from account `i` on.
  unfoldable pub update_accounts : ℕ → List (AccountMeta × Account) → Action mem vm (Unit {0})
  update_accounts i [] = pure tt
  update_accounts i ((meta, account) ∷ accounts) = do
    update_account mem vm sdk i meta.pubkey account meta.is_signer meta.is_writable false
    update_accounts (i + 1) accounts

  -- The calls between the constructor and the log.
  unfoldable pub prepare :
      ℕ → Account → List ℕ → List (AccountMeta × Account) → Action mem vm (Unit {0})
  prepare program_id program ix_data accounts = do
    update_program mem vm sdk program_id program true
    update_instruction mem vm sdk ix_data
    update_accounts 0 accounts

  -- `*exe.context_mut().log_collector_mut() = Some(log)`
  unfoldable pub set_log : vm.LogCollector → InstructionExecutor mem vm → InstructionExecutor mem vm
  set_log log exe = record exe { context = record (exe.context) { log_collector = some log } }

  -- `exe.context().log_collector().as_ref().unwrap()`, in either branch.
  unfoldable pub with_log :
      (vm.LogCollector → Report vm.LogCollector)
      → InstructionExecutor mem vm
      → Outcome Error (Report vm.LogCollector)
  with_log make exe = elim exe.context.log_collector [ none ↦ panic | some log ↦ ok (make log) ]

  -- The run and what is printed of it.
  unfoldable pub report : InstructionExecutor mem vm → Outcome Error (Report vm.LogCollector)
  report exe = elim (execute mem vm sdk exe) [
    | ok (_, left) ↦ with_log logged left
    | err (e, left) ↦ with_log (errored e) left
    | panic ↦ panic
  ]

  -- From the prepared executor on, where an error of the calls before it is returned.
  unfoldable pub finish :
      vm.LogCollector
      → Outcome (Error × InstructionExecutor mem vm) (Unit {0} × InstructionExecutor mem vm)
      → Outcome Error (Report vm.LogCollector)
  finish log (ok (_, exe)) = report (set_log log exe)
  finish log (err (e, _)) = err e
  finish log panic = panic

  unfoldable pub run_ro :
      Outside vm.LogCollector → Outcome Error vm.Registry → Outcome Error (Report vm.LogCollector)
  run_ro outside registry = do
    bytes ← outside.read_file "target/deploy/example.so"
    let program = record default_account { data_bytes = bytes }
    let key = outside.system_program
    let accounts = (new_readonly key, unwrap_or_default (outside.get_account key)) ∷ []
    exe ←
        new mem vm sdk registry 41
          (vec_sizes (map (λ (meta, account). length account.data_bytes) accounts))
    finish outside.new_log (prepare dummy_program program (1 ∷ 2 ∷ 3 ∷ 4 ∷ []) accounts exe)
