-- ===== src/InstructionExecutor/Refinement/Program.antt =====
-- `update_instruction` and `update_program` change one part of the view.
use mathlib.Core.Path.{ap₂}
use solana_bpf_simulator.Prelude.{
  ℕ, ◌+◌, ◌≤◌, ◌<◌, ◌≡◌, refl, sym, ap, ◌∙◌, Bool, some, List, ◌++◌, length, drop, le→ltb, lt→ltb,
  length-drop, arith, lengths,
}
use solana_bpf_simulator.Prelude.Bytes.{le_bytes, be_bytes}
use solana_bpf_simulator.Prelude.Slices.{splice, splice-splice}
use solana_bpf_simulator.Prelude.Outcome.{ok, err}
use solana_bpf_simulator.Prelude.Method.{◌>>=◌}
use solana_bpf_simulator.Words.{u64_mod, add64}
use solana_bpf_simulator.Memory.{AlignedMemory, IsAlignedMemory}
use solana_bpf_simulator.InstructionExecutor.Types.{Sdk, Account, invalid_instruction}
use solana_bpf_simulator.InstructionExecutor.Buffer.{write, write_all}
use solana_bpf_simulator.InstructionExecutor.Buffer.Writes.{
  written, Fits, as_slice-written, write_all_first, write-write_all, write_all_step,
}
use solana_bpf_simulator.InstructionExecutor.Vm.{Vm}
use solana_bpf_simulator.InstructionExecutor.Executor.{InstructionExecutor}
use solana_bpf_simulator.InstructionExecutor.Executor.Methods.{
  on_buffer, on_buffer_ok, compile, update_instruction, update_program,
}
use solana_bpf_simulator.InstructionExecutor.View.{View, Represents, serialize}
use solana_bpf_simulator.InstructionExecutor.View.Serialize.{
  splice-instruction, splice-instruction_len, splice-program_id,
}
use solana_bpf_simulator.InstructionExecutor.Refinement.Buffer.{Represents-buffer, length-buffer}

module _ (mem : AlignedMemory) (laws : IsAlignedMemory mem) (vm : Vm mem) (sdk : Sdk)
    (sizes : List ℕ) (self : InstructionExecutor mem vm) (v : View)
    (r : Represents mem vm sdk sizes self v) where
  -- An instruction that does not fit is refused, and nothing changes.
  pub update_instruction_too_long :
      (instruction : List ℕ)
      → self.instruction_size < length instruction
      → update_instruction mem vm sdk instruction self ≡ err (invalid_instruction, self)
  unfolding update_instruction
  update_instruction_too_long instruction long =
      rw (lt→ltb self.instruction_size (length instruction) long) refl

  -- An instruction that fits replaces the first bytes of the one before. The rest of that one stays,
  -- and so does the length, which is that of the space.
  pub update_instruction_lem :
      (instruction : List ℕ)
      → length instruction ≤ self.instruction_size
      → (b : mem.Memory) × (update_instruction mem vm sdk instruction self
          ≡ ok (tt, record self { buffer = b }))
        × Represents mem vm sdk sizes
            (record self { buffer = b })
            (record v { instruction = instruction ++ drop (length instruction) v.instruction })
  unfolding update_instruction
  update_instruction_lem instruction short =
      (final, run, Represents-buffer mem vm sdk sizes self v r _ _ bytes r.entries count)
    where
      at : ℕ
      at = self.instruction_offset

      len_bytes : List ℕ
      len_bytes = le_bytes 8 self.instruction_size

      final : mem.Memory
      final = written mem self.buffer (some at) (len_bytes ++ instruction)

      room : at + 8 + length instruction ≤ length (mem.as_slice self.buffer)
      room = omega (arith, length-buffer mem vm sdk sizes self v r, r.instruction_offset)

      narrow : length (mem.as_slice self.buffer) < u64_mod
      narrow = omega (arith, length-buffer mem vm sdk sizes self v r, r.small)

      fits : Fits mem self.buffer (some at) (length len_bytes + length instruction)
      fits = omega (lengths, room, narrow)

      wrote_len :
          on_buffer mem vm (λ b. write mem b (some at) len_bytes) self
          ≡ ok (
            at + length len_bytes,
            record self { buffer = written mem self.buffer (some at) len_bytes },
          )
      wrote_len =
          on_buffer_ok mem vm (λ b. write mem b (some at) len_bytes) self (at + length len_bytes)
            (written mem self.buffer (some at) len_bytes)
            (write-write_all mem laws self.buffer (some at) len_bytes (omega (arith, fits))
              ∙ write_all_first mem laws self.buffer (some at) len_bytes (omega (arith, fits)))

      behind : add64 at 8 ≡ at + length len_bytes
      behind = omega (lengths, room, narrow)

      wrote :
          on_buffer mem vm
            (λ b. write_all mem b (some (add64 at 8)) instruction)
            (record self { buffer = written mem self.buffer (some at) len_bytes })
          ≡ ok (at + length (len_bytes ++ instruction), record self { buffer = final })
      wrote =
          ap (λ k. on_buffer mem vm (λ b. write_all mem b (some k) instruction) sized) behind
          ∙ on_buffer_ok mem vm (λ b. write_all mem b (some (at + length len_bytes)) instruction)
              sized (at + length (len_bytes ++ instruction)) final
              (write_all_step mem laws self.buffer (some at) len_bytes instruction fits)
        where
          sized : InstructionExecutor mem vm
          sized = record self { buffer = written mem self.buffer (some at) len_bytes }

      run : update_instruction mem vm sdk instruction self ≡ ok (tt, record self { buffer = final })
      run =
          rw (le→ltb self.instruction_size (length instruction) short, wrote_len, wrote, ◌>>=◌) refl

      bytes :
          mem.as_slice final
          ≡ serialize sdk sizes
              (record v { instruction = instruction ++ drop (length instruction) v.instruction })
      bytes =
          as_slice-written mem laws self.buffer at (len_bytes ++ instruction)
            (omega (lengths, fits))
          ∙ sym (
              splice-splice at (at + 8) len_bytes instruction (mem.as_slice self.buffer)
                (omega lengths) (omega (lengths, fits)))
          ∙ ap (splice (at + 8) instruction) sized
          ∙ splice-instruction sdk sizes v (at + 8) instruction r.entries
              (omega (arith, r.instruction)) (omega (arith, r.instruction_offset))
        where
          sized : splice at len_bytes (mem.as_slice self.buffer) ≡ serialize sdk sizes v
          sized =
              ap₂ (λ n l. splice at (le_bytes 8 n) l) (sym r.instruction) r.bytes
              ∙ splice-instruction_len sdk sizes v at r.entries r.instruction_offset

      count :
          length (instruction ++ drop (length instruction) v.instruction) ≡ self.instruction_size
      count = omega (lengths, length-drop (length instruction) v.instruction, r.instruction)

  -- A program that loads replaces the executable and the program id, in the context and in the view.
  pub update_program_lem :
      (program_id : ℕ) (account : Account) (jit : Bool) (loaded executable : vm.Executable)
      → vm.from_elf account.data_bytes self.runtime ≡ ok loaded
      → compile mem vm sdk jit loaded ≡ ok executable
      → (b : mem.Memory) × (update_program mem vm sdk program_id account jit self
          ≡ ok (
            tt,
            record self {
              executable = some executable;
              context = record (self.context) { program_id = program_id };
              buffer = b;
            },
          ))
        × Represents mem vm sdk sizes
            (record self {
              executable = some executable;
              context = record (self.context) { program_id = program_id };
              buffer = b;
            })
            (record v { program_id = program_id })
  unfolding update_program
  update_program_lem program_id account jit loaded executable elf compiled = (
    final,
    run,
    Represents-buffer mem vm sdk sizes with_program v r' _ _ bytes r.entries r.instruction,
  )
    where
      at : ℕ
      at = self.program_id_offset

      id : List ℕ
      id = be_bytes 32 program_id

      with_program : InstructionExecutor mem vm
      with_program = record self {
        executable = some executable;
        context = record (self.context) { program_id = program_id };
      }

      r' : Represents mem vm sdk sizes with_program v
      r' = record {
        sized = r.sized;
        entries = r.entries;
        instruction = r.instruction;
        small = r.small;
        bytes = r.bytes;
        offsets = r.offsets;
        instruction_offset = r.instruction_offset;
        program_id_offset = r.program_id_offset;
      }

      final : mem.Memory
      final = written mem self.buffer (some at) id

      fits : Fits mem self.buffer (some at) (length id)
      fits = omega (lengths, length-buffer mem vm sdk sizes self v r, r.small, r.program_id_offset)

      wrote :
          on_buffer mem vm (λ b. write_all mem b (some at) id) with_program
          ≡ ok (at + length id, record with_program { buffer = final })
      wrote =
          on_buffer_ok mem vm (λ b. write_all mem b (some at) id) with_program (at + length id)
            final (write_all_first mem laws self.buffer (some at) id fits)

      run :
          update_program mem vm sdk program_id account jit self
          ≡ ok (tt, record with_program { buffer = final })
      run = rw (elf, compiled, wrote, ◌>>=◌) refl

      bytes : mem.as_slice final ≡ serialize sdk sizes (record v { program_id = program_id })
      bytes =
          as_slice-written mem laws self.buffer at id (omega (arith, fits))
          ∙ ap (splice at id) r.bytes
          ∙ splice-program_id sdk sizes v at program_id r.entries
              (omega (arith, r.program_id_offset, r.instruction))
