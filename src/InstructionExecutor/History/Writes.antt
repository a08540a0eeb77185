-- ===== src/InstructionExecutor/History/Writes.antt =====
-- The writing methods on an executor of which only the shape is known.
use solana_bpf_simulator.Prelude.{
  ℕ, ◌+◌, ◌≤◌, ◌≡◌, refl, ap, ◌∙◌, Bool, some, List, ◌++◌, length, get_elem?, le→ltb, arith,
  lengths,
}
use solana_bpf_simulator.Prelude.Bytes.{le_bytes, be_bytes}
use solana_bpf_simulator.Prelude.Slices.{splice, length-splice}
use solana_bpf_simulator.Prelude.Outcome.{ok}
use solana_bpf_simulator.Prelude.Method.{◌>>=◌}
use solana_bpf_simulator.Words.{add64}
use solana_bpf_simulator.Memory.{AlignedMemory, IsAlignedMemory}
use solana_bpf_simulator.InstructionExecutor.Types.{Sdk, Account}
use solana_bpf_simulator.InstructionExecutor.Layout.{slot, slot_len}
use solana_bpf_simulator.InstructionExecutor.Buffer.{write, write_all, write_account}
use solana_bpf_simulator.InstructionExecutor.Buffer.Writes.{
  written, Fits, as_slice-written, write_all_first, write-write_all, write_all_step,
}
use solana_bpf_simulator.InstructionExecutor.Buffer.Slots.{write_account_lem}
use solana_bpf_simulator.InstructionExecutor.Vm.{Vm}
use solana_bpf_simulator.InstructionExecutor.Executor.{InstructionExecutor}
use solana_bpf_simulator.InstructionExecutor.Executor.Methods.{
  on_buffer, on_buffer_ok, update_instruction, update_account,
}
use solana_bpf_simulator.InstructionExecutor.View.{buffer_len}
use solana_bpf_simulator.InstructionExecutor.History.Shape.{
  slot_start, offsets-slot_start, slot_start_bound, IsShaped, IsShaped-buffer,
}

module _ (mem : AlignedMemory) (laws : IsAlignedMemory mem) (vm : Vm mem) (sdk : Sdk)
    (sizes : List ℕ) (instruction_size : ℕ) where
  -- An executor after a write of `v` at `at`.
  abbrev pub with_bytes : ℕ → List ℕ → InstructionExecutor mem vm → InstructionExecutor mem vm
  with_bytes at v self = record self { buffer = written mem self.buffer (some at) v }

  module _ (self : InstructionExecutor mem vm)
      (shaped : IsShaped mem vm sdk sizes instruction_size self) where
    pub as_slice-with_bytes :
        (at : ℕ) (v : List ℕ)
        → at + length v ≤ buffer_len sdk sizes instruction_size
        → mem.as_slice (written mem self.buffer (some at) v)
          ≡ splice at v (mem.as_slice self.buffer)
    as_slice-with_bytes at v fits =
        as_slice-written mem laws self.buffer at v (omega (arith, shaped.filled))

    pub with_bytes-IsShaped :
        (at : ℕ) (v : List ℕ)
        → at + length v ≤ buffer_len sdk sizes instruction_size
        → IsShaped mem vm sdk sizes instruction_size (with_bytes at v self)
    with_bytes-IsShaped at v fits =
        IsShaped-buffer mem vm sdk sizes instruction_size self (with_bytes at v self) shaped refl
          refl refl refl refl
          (ap length (as_slice-with_bytes at v fits)
            ∙ length-splice at v (mem.as_slice self.buffer) (omega (arith, shaped.filled)))

    fits_at :
        (at n : ℕ)
        → at + n ≤ buffer_len sdk sizes instruction_size
        → Fits mem self.buffer (some at) n
    fits_at at n h = omega (arith, shaped.filled, shaped.small)

    pub slot_place :
        (i size : ℕ)
        → get_elem? sizes i ≡ some size
        → 8 + slot_start sdk sizes i + slot_len sdk size ≤ buffer_len sdk sizes instruction_size
    slot_place i size at = omega (arith, slot_start_bound sdk sizes i size at)

    pub update_account_writes :
        (i size key : ℕ) (account : Account) (s w e : Bool)
        → get_elem? sizes i ≡ some size
        → length account.data_bytes ≤ size
        → update_account mem vm sdk i key account s w e self
          ≡ ok (tt, with_bytes (8 + slot_start sdk sizes i) (slot sdk size key account s w e) self)
    unfolding update_account
    update_account_writes i size key account s w e at short =
        rw
          (
            shaped.sized.at i size at,
            le→ltb size (length account.data_bytes) short,
            ap (λ l. get_elem? l i) shaped.offsets ∙ offsets-slot_start sdk sizes i size 8 at,
            wrote,
            ◌>>=◌,
          )
          refl
      where
        from : ℕ
        from = 8 + slot_start sdk sizes i

        wrote :
            on_buffer mem vm (λ b. write_account mem sdk b size (some from) key account s w e) self
            ≡ ok (
              from + length (slot sdk size key account s w e),
              with_bytes from (slot sdk size key account s w e) self,
            )
        wrote = on_buffer_ok mem vm _ self _ _ (
            write_account_lem mem laws sdk self.buffer size key account s w e short
              (omega (arith, slot_place i size at, shaped.small)) (some from)
              (fits_at from (slot_len sdk size) (slot_place i size at)))

    pub update_instruction_writes :
        (instruction : List ℕ)
        → length instruction ≤ instruction_size
        → update_instruction mem vm sdk instruction self
          ≡ ok (
            tt,
            with_bytes self.instruction_offset
                (le_bytes 8 self.instruction_size ++ instruction)
                self,
          )
    unfolding update_instruction
    update_instruction_writes instruction short =
        rw
          (
            le→ltb self.instruction_size (length instruction) (omega (arith, shaped.instruction)),
            wrote_len,
            wrote,
            ◌>>=◌,
          )
          refl
      where
        at : ℕ
        at = self.instruction_offset

        len_bytes : List ℕ
        len_bytes = le_bytes 8 self.instruction_size

        fits : Fits mem self.buffer (some at) (length len_bytes + length instruction)
        fits =
            fits_at at (length len_bytes + length instruction)
              (omega (lengths, shaped.instruction_offset))

        sized : InstructionExecutor mem vm
        sized = with_bytes at len_bytes self

        wrote_len :
            on_buffer mem vm (λ b. write mem b (some at) len_bytes) self
            ≡ ok (at + length len_bytes, sized)
        wrote_len =
            on_buffer_ok mem vm (λ b. write mem b (some at) len_bytes) self (at + length len_bytes)
              (written mem self.buffer (some at) len_bytes)
              (write-write_all mem laws self.buffer (some at) len_bytes (omega (arith, fits))
                ∙ write_all_first mem laws self.buffer (some at) len_bytes (omega (arith, fits)))

        behind : add64 at 8 ≡ at + length len_bytes
        behind = omega (lengths, shaped.instruction_offset, shaped.small)

        wrote :
            on_buffer mem vm (λ b. write_all mem b (some (add64 at 8)) instruction) sized
            ≡ ok (
              at + length (len_bytes ++ instruction),
              with_bytes at (len_bytes ++ instruction) self,
            )
        wrote =
            ap (λ k. on_buffer mem vm (λ b. write_all mem b (some k) instruction) sized) behind
            ∙ on_buffer_ok mem vm (λ b. write_all mem b (some (at + length len_bytes)) instruction)
                sized (at + length (len_bytes ++ instruction))
                (written mem self.buffer (some at) (len_bytes ++ instruction))
                (write_all_step mem laws self.buffer (some at) len_bytes instruction fits)

    pub update_program_writes :
        (program_id : ℕ) (executable : vm.Executable)
        → let known = record self {
          executable = some executable;
          context = record (self.context) { program_id = program_id };
        } in
          on_buffer mem vm
            (λ b. write_all mem b (some self.program_id_offset) (be_bytes 32 program_id))
            known
          ≡ ok (
            self.program_id_offset + length (be_bytes 32 program_id),
            with_bytes self.program_id_offset (be_bytes 32 program_id) known,
          )
    update_program_writes program_id executable =
        on_buffer_ok mem vm
          (λ b. write_all mem b (some self.program_id_offset) (be_bytes 32 program_id)) _ _ _
          (write_all_first mem laws self.buffer (some self.program_id_offset)
            (be_bytes 32 program_id)
            (fits_at self.program_id_offset (length (be_bytes 32 program_id))
              (omega (lengths, shaped.program_id_offset))))
