-- ===== src/InstructionExecutor/Buffer.antt =====
-- The functions of src/instruction_executor/mod.rs that write into the buffer. Each takes the buffer
-- and returns it beside its result; `at` is the position, or `none` to append.
pub mod Writes
pub mod Slots
use solana_bpf_simulator.Prelude.{
  ℕ, ◌+◌, ◌-◌, ◌%◌, Bool, true, false, Option, none, some, List, [], ◌∷◌, length, replicate,
}
use solana_bpf_simulator.Prelude.Slices.{overwrite}
use solana_bpf_simulator.Prelude.Bytes.{le_bytes, be_bytes}
use solana_bpf_simulator.Prelude.Outcome.{Outcome, ok, err, panic, ◌>>=◌, unwrap}
use solana_bpf_simulator.Words.{add64, sub64}
use solana_bpf_simulator.Memory.{AlignedMemory}
use solana_bpf_simulator.InstructionExecutor.Types.{
  Sdk, Error, instruction_error, invalid_argument, io_error, Account,
}

-- `(size as *const u8).align_offset(align)`
unfoldable pub align_offset : ℕ → ℕ → ℕ
align_offset size align = (align - size % align) % align

abbrev pub bool_to_u8 : Bool → ℕ
bool_to_u8 true = 1
bool_to_u8 false = 0

-- `at.map(|_| next)`
abbrev pub advance : Option ℕ → ℕ → Option ℕ
advance none next = none
advance (some _) next = some next

-- `.map_err(|_| e)`
abbrev pub map_err {ℓ} : {A E : Type ℓ} → Outcome E A → E → Outcome E A
map_err (ok a) e = ok a
map_err (err _) e = err e
map_err panic e = panic

module _ (mem : AlignedMemory) where
  abbrev pub Write : Type 0
  Write = Outcome Error (ℕ × mem.Memory)

  unfoldable pub fill_write : mem.Memory → Option ℕ → ℕ → ℕ → Write
  fill_write buffer none num value = elim (mem.fill_write buffer num value) [
    | none ↦ err io_error
    | some filled ↦ ok (length (mem.as_slice filled), filled)
  ]
  fill_write buffer (some at) num value = do
    let to = add64 at num
    slice ← unwrap (overwrite at to (replicate (to - at) value) (mem.as_slice buffer))
    ok (to, mem.as_slice_mut buffer slice)

  -- `write::<T>`, with the bytes of the value; a u8 or u64 is `le_bytes 1` or `le_bytes 8`.
  unfoldable pub write : mem.Memory → Option ℕ → List ℕ → Write
  write buffer none value =
      let written = mem.write_unchecked buffer value in ok (length (mem.as_slice written), written)
  write buffer (some at) value = do
    let to = add64 at (length value)
    slice ← unwrap (overwrite at to value (mem.as_slice buffer))
    ok (to, mem.as_slice_mut buffer slice)

  unfoldable pub write_all : mem.Memory → Option ℕ → List ℕ → Write
  write_all buffer none value =
      let written = mem.write_all_unchecked buffer value in
      ok (length (mem.as_slice written), written)
  write_all buffer (some at) value = do
    let to = add64 at (length value)
    slice ← unwrap (overwrite at to value (mem.as_slice buffer))
    ok (to, mem.as_slice_mut buffer slice)

  module _ (sdk : Sdk) where
    unfoldable pub write_account :
        mem.Memory → ℕ → Option ℕ → ℕ → Account → Bool → Bool → Bool → Write
    write_account b₀ account_size at key account is_signer is_writable is_executable = do
      (n₁, b₁) ← write b₀ at (le_bytes 1 sdk.non_dup_marker)
      let at₁ = advance at n₁
      (n₂, b₂) ← write b₁ at₁ (le_bytes 1 (bool_to_u8 is_signer))
      let at₂ = advance at₁ n₂
      (n₃, b₃) ← write b₂ at₂ (le_bytes 1 (bool_to_u8 is_writable))
      let at₃ = advance at₂ n₃
      (n₄, b₄) ← write b₃ at₃ (le_bytes 1 (bool_to_u8 is_executable))
      let at₄ = advance at₃ n₄
      (n₅, b₅) ← write_all b₄ at₄ (0 ∷ 0 ∷ 0 ∷ 0 ∷ [])
      let at₅ = advance at₄ n₅
      (n₆, b₆) ← write_all b₅ at₅ (be_bytes 32 key)
      let at₆ = advance at₅ n₆
      (n₇, b₇) ← write_all b₆ at₆ (be_bytes 32 account.owner)
      let at₇ = advance at₆ n₇
      (n₈, b₈) ← write b₇ at₇ (le_bytes 8 account.lamports)
      let at₈ = advance at₇ n₈
      (n₉, b₉) ← write b₈ at₈ (le_bytes 8 account_size)
      let at₉ = advance at₈ n₉
      (n₁₀, b₁₀) ← write_all b₉ at₉ account.data_bytes
      let at₁₀ = advance at₉ n₁₀
      let padding = align_offset account_size sdk.bpf_align_of_u128
      let spare =
          add64 (sub64 account_size (length account.data_bytes)) sdk.max_permitted_data_increase
      (n₁₁, b₁₁) ←
          map_err (fill_write b₁₀ at₁₀ (add64 spare padding) 0) (instruction_error invalid_argument)
      let at₁₁ = advance at₁₀ n₁₁
      write b₁₁ at₁₁ (le_bytes 8 account.rent_epoch)

    unfoldable pub write_empty_account : mem.Memory → ℕ → Outcome Error mem.Memory
    write_empty_account b₀ data_size = do
      (_, b₁) ← write b₀ none (le_bytes 1 sdk.non_dup_marker)
      (_, b₂) ← write b₁ none (le_bytes 1 0)
      (_, b₃) ← write b₂ none (le_bytes 1 0)
      (_, b₄) ← write b₃ none (le_bytes 1 0)
      (_, b₅) ← write_all b₄ none (0 ∷ 0 ∷ 0 ∷ 0 ∷ [])
      (_, b₆) ← write_all b₅ none (be_bytes 32 0)
      (_, b₇) ← write_all b₆ none (be_bytes 32 0)
      (_, b₈) ← write b₇ none (le_bytes 8 0)
      (_, b₉) ← write b₈ none (le_bytes 8 data_size)
      let padding = align_offset data_size sdk.bpf_align_of_u128
      (_, b₁₀) ←
          map_err
            (fill_write b₉ none (add64 (add64 data_size sdk.max_permitted_data_increase) padding) 0)
            (instruction_error invalid_argument)
      (_, b₁₁) ← write b₁₀ none (le_bytes 8 0)
      ok b₁₁
