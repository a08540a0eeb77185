-- ===== src/InstructionExecutor/Executor/GetAccount.antt =====
-- `get_account` of src/instruction_executor/mod.rs, which reads an account back from its slot. It
-- returns no error; each index or range out of bounds is a panic.
use solana_bpf_simulator.Prelude.{ℕ, List, get_elem?, ◌==◌}
use solana_bpf_simulator.Prelude.Slices.{range}
use solana_bpf_simulator.Prelude.Bytes.{from_le_bytes, from_be_bytes}
use solana_bpf_simulator.Prelude.Outcome.{Outcome, ok, ◌>>=◌, unwrap}
use solana_bpf_simulator.Words.{add64}
use solana_bpf_simulator.Memory.{AlignedMemory}
use solana_bpf_simulator.InstructionExecutor.Types.{Sdk, Error, Account}
use solana_bpf_simulator.InstructionExecutor.Buffer.{align_offset}
use solana_bpf_simulator.InstructionExecutor.Vm.{Vm}
use solana_bpf_simulator.InstructionExecutor.Executor.{InstructionExecutor}

module _ (sdk : Sdk) where
  -- The body, over the bytes of the buffer and the offset of the slot.
  unfoldable pub read_account : List ℕ → ℕ → Outcome Error Account
  read_account bytes start = do
    let o₁ = add64 start 3
    flag ← unwrap (get_elem? bytes o₁)
    let o₂ = add64 o₁ 37
    owner ← unwrap (range o₂ (add64 o₂ 32) bytes)
    let o₃ = add64 o₂ 32
    lamports ← unwrap (range o₃ (add64 o₃ 8) bytes)
    let o₄ = add64 o₃ 8
    len_bytes ← unwrap (range o₄ (add64 o₄ 8) bytes)
    let data_len = from_le_bytes len_bytes
    let o₅ = add64 o₄ 8
    data_bytes ← unwrap (range o₅ (add64 o₅ data_len) bytes)
    let o₆ = add64 o₅ data_len
    let padding = align_offset data_len sdk.bpf_align_of_u128
    let o₇ = add64 o₆ (add64 padding sdk.max_permitted_data_increase)
    rent_epoch ← unwrap (range o₇ (add64 o₇ 8) bytes)
    ok (record {
      lamports = from_le_bytes lamports;
      data_bytes = data_bytes;
      owner = from_be_bytes owner;
      executable = flag == 1;
      rent_epoch = from_le_bytes rent_epoch;
    })

module _ (mem : AlignedMemory) (vm : Vm mem) (sdk : Sdk) where
  unfoldable pub get_account : InstructionExecutor mem vm → ℕ → Outcome Error Account
  unfolding read_account
  get_account self i = do
    offset ← unwrap (get_elem? self.account_offsets i)
    read_account sdk (mem.as_slice self.buffer) offset
