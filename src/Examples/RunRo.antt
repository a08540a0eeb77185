-- ===== src/Examples/RunRo.antt =====
-- examples/raw/examples/check.rs: a whole run of `run_ro`.
use solana_bpf_simulator.Prelude.{ℕ, [], ◌∷◌, ◌++◌, length, replicate}
use solana_bpf_simulator.InstructionExecutor.Vm.{Vm}
use solana_bpf_simulator.InstructionExecutor.Executor.{InstructionExecutor}
use solana_bpf_simulator.InstructionExecutor.View.{View}
use solana_bpf_simulator.Examples.{Outside, dummy_program, unwrap_or_default, new_readonly}
use solana_bpf_simulator.Examples.Placed.{Given, placed}

module _ {LogCollector : Type 0} (outside : Outside LogCollector) where
  -- The account of the run, by what the node answers.
  abbrev pub given : Given
  given = (
    new_readonly outside.system_program,
    unwrap_or_default (outside.get_account outside.system_program),
  )

  abbrev pub given_len : ℕ
  given_len = length given.1.data_bytes

  -- What the program is given to read: the account, the four bytes of the instruction with zeros up to the
  -- 41 that it is told, and its own key.
  abbrev pub given_view : View
  given_view = record {
    entries = placed given ∷ [];
    instruction = (1 ∷ 2 ∷ 3 ∷ 4 ∷ []) ++ replicate 37 0;
    program_id = dummy_program;
  }
