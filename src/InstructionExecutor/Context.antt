-- ===== src/InstructionExecutor/Context.antt =====
-- src/instruction_executor/context.rs: what the virtual machine keeps for one executor. The caches of
-- sysvars and log lines are types of the Solana runtime.
use solana_bpf_simulator.Prelude.{ℕ, ◌-◌, ◌/◌, Bool, false, Option, none, List, []}
use solana_bpf_simulator.Words.{u64_mod, saturating_sub}

pub record InvokeContext (SysvarCache LogCollector : Type 0) : Type 0 where
  pub sysvars : SysvarCache
  pub instruction_remaining : ℕ
  pub log_collector : Option LogCollector
  pub program_id : ℕ
  pub return_data : ℕ × List ℕ

module _ {SysvarCache LogCollector : Type 0} where
  -- `InvokeContext::new`, with `SysvarCache::default()` as its argument.
  unfoldable pub new : SysvarCache → InvokeContext SysvarCache LogCollector
  new default_cache = record {
    sysvars = default_cache;
    instruction_remaining = (u64_mod - 1) / 256;
    log_collector = none;
    program_id = 0;
    return_data = (0, []);
  }

  unfoldable pub get_check_aligned : InvokeContext SysvarCache LogCollector → Bool
  get_check_aligned c = false

  unfoldable pub get_check_size : InvokeContext SysvarCache LogCollector → Bool
  get_check_size c = false

  unfoldable pub consume :
      InvokeContext SysvarCache LogCollector → ℕ → InvokeContext SysvarCache LogCollector
  consume c amount = record c {
    instruction_remaining = saturating_sub c.instruction_remaining amount;
  }

  unfoldable pub get_remaining : InvokeContext SysvarCache LogCollector → ℕ
  get_remaining c = c.instruction_remaining
