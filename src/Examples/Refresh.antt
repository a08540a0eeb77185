-- ===== src/Examples/Refresh.antt =====
-- examples/raw/examples/check.rs: the calls before a run, made on an executor that has run
-- programs before.
use solana_bpf_simulator.Prelude.{
  ℕ, ◌+◌, ◌≡◌, refl, sym, ap, ◌∙◌, true, some, List, [], ◌++◌, append_assoc, append-nil, map,
  length, length-append, length-take, length-drop, take, drop, take-append-drop, arith, lengths,
}
use solana_bpf_simulator.Prelude.Bytes.{le_bytes, be_bytes}
use solana_bpf_simulator.Prelude.Slices.{splice, splice_middle}
use solana_bpf_simulator.Prelude.Outcome.{ok}
use solana_bpf_simulator.Prelude.Method.{◌>>=◌, ◌>>◌, bind_ok}
use solana_bpf_simulator.Memory.{AlignedMemory, IsAlignedMemory}
use solana_bpf_simulator.InstructionExecutor.Types.{Sdk, Account}
use solana_bpf_simulator.InstructionExecutor.Vm.{Vm}
use solana_bpf_simulator.InstructionExecutor.Executor.{InstructionExecutor}
use solana_bpf_simulator.InstructionExecutor.Executor.Methods.{
  compile, update_program, update_instruction,
}
use solana_bpf_simulator.InstructionExecutor.View.{slots, slots_len, trailer}
use solana_bpf_simulator.InstructionExecutor.History.Shape.{IsShaped, IsShaped-buffer}
use solana_bpf_simulator.InstructionExecutor.History.Writes.{
  with_bytes, as_slice-with_bytes, with_bytes-IsShaped, update_instruction_writes,
  update_program_writes,
}
use solana_bpf_simulator.InstructionExecutor.History.{Reaches}
use solana_bpf_simulator.InstructionExecutor.History.Ends.{IsTame}
use solana_bpf_simulator.InstructionExecutor.History.Reach.{Reaches-IsShaped}
use solana_bpf_simulator.Examples.{update_accounts, prepare}
use solana_bpf_simulator.Examples.Placed.{Given, data_len, placed, Fitting-all}
use solana_bpf_simulator.Examples.Replaced.{slot_start_zero, update_accounts-Shaped}

-- Writes to the last two of four parts, the last one first.
splice_parts :
    (at to : ℕ) (v id front mid old last : List ℕ)
    → at ≡ length front + length mid
    → to ≡ at + length old
    → length v ≡ length old
    → length id ≡ length last
    → splice at v (splice to id (front ++ (mid ++ (old ++ last)))) ≡ front ++ (mid ++ (v ++ id))
splice_parts at to v id front mid old last e f hv hid =
    ap (splice at v) (
      ap (splice to id) {y = (front ++ (mid ++ old)) ++ (last ++ [])}
        (simp (append_assoc, append-nil))
      ∙ splice_middle to id (front ++ (mid ++ old)) last []
          (omega (arith, length-append front (mid ++ old), length-append mid old)) hid
      ∙ regroup)
    ∙ splice_middle at v (front ++ mid) old id (omega (arith, length-append front mid)) hv
    ∙ append_assoc front mid (v ++ id)
  where
    regroup : (front ++ (mid ++ old)) ++ (id ++ []) ≡ (front ++ mid) ++ (old ++ id)
    regroup = simp (append_assoc, append-nil)

-- A list in four parts.
four_parts :
    (s n : ℕ) (l : List ℕ)
    → l
      ≡ take 8 l
        ++ (take s (drop 8 l) ++ (take n (drop s (drop 8 l)) ++ drop n (drop s (drop 8 l))))
four_parts s n l =
    sym (take-append-drop 8 l)
    ∙ ap (λ k. take 8 l ++ k)
        (sym (take-append-drop s (drop 8 l))
          ∙ ap (λ k. take s (drop 8 l) ++ k) (sym (take-append-drop n (drop s (drop 8 l)))))

module _ (mem : AlignedMemory) (laws : IsAlignedMemory mem) (vm : Vm mem) (sdk : Sdk)
    (xs : List Given) (ix_data : List ℕ) (self : InstructionExecutor mem vm)
    (shaped : IsShaped mem vm sdk (map data_len xs) (length ix_data) self) where
  pub prepare-Shaped :
      (program_id : ℕ) (program : Account) (loaded executable : vm.Executable)
      → vm.from_elf program.data_bytes self.runtime ≡ ok loaded
      → compile mem vm sdk true loaded ≡ ok executable
      → (b : mem.Memory) × (prepare mem vm sdk program_id program ix_data xs self
          ≡ ok (
            tt,
            record self {
              executable = some executable;
              context = record (self.context) { program_id = program_id };
              buffer = b;
            },
          ))
        × (mem.as_slice b
            ≡ take 8 (mem.as_slice self.buffer)
              ++ (slots sdk (map data_len xs) (map placed xs)
                  ++ trailer sdk (record {
                    entries = map placed xs;
                    instruction = ix_data;
                    program_id = program_id;
                  })))
  unfolding prepare update_program
  prepare-Shaped program_id program loaded executable elf compiled =
      let (b, run, _, bytes) =
        update_accounts-Shaped mem laws vm sdk sizes n 0 xs front mid ((len_bytes ++ ix_data) ++ id)
          with_instruction with_instruction-Shaped (Fitting-all [] 0 xs refl)
          (omega (arith, length-take 8 old, shaped.filled, slot_start_zero sdk sizes))
          (omega (arith, length-take s (drop 8 old), length-drop 8 old, shaped.filled))
          written_parts in
      (
        b,
        bind_ok (update_program mem vm sdk program_id program true)
              (λ _. update_instruction mem vm sdk ix_data >> update_accounts mem vm sdk 0 xs) self
              (rw
                (
                  elf,
                  compiled,
                  update_program_writes mem laws vm sdk sizes n self shaped program_id executable,
                  ◌>>=◌,
                )
                refl)
            ∙ bind_ok (update_instruction mem vm sdk ix_data) (λ _. update_accounts mem vm sdk 0 xs)
                with_program
                (update_instruction_writes mem laws vm sdk sizes n with_program with_program-Shaped
                  ix_data (omega arith))
            ∙ run,
        bytes
            ∙ ap (λ t. front ++ (slots sdk sizes (map placed xs) ++ t))
                (append_assoc len_bytes ix_data id
                  ∙ ap (λ k. le_bytes 8 k ++ (ix_data ++ id)) shaped.instruction),
      )
    where
      sizes : List ℕ
      sizes = map data_len xs

      n : ℕ
      n = length ix_data

      id : List ℕ
      id = be_bytes 32 program_id

      len_bytes : List ℕ
      len_bytes = le_bytes 8 self.instruction_size

      old : List ℕ
      old = mem.as_slice self.buffer

      s : ℕ
      s = slots_len sdk sizes

      front : List ℕ
      front = take 8 old

      mid : List ℕ
      mid = take s (drop 8 old)

      known : InstructionExecutor mem vm
      known = record self {
        executable = some executable;
        context = record (self.context) { program_id = program_id };
      }

      known-Shaped : IsShaped mem vm sdk sizes n known
      known-Shaped =
          IsShaped-buffer mem vm sdk sizes n self known shaped refl refl refl refl refl refl

      with_program : InstructionExecutor mem vm
      with_program = with_bytes mem laws vm sdk sizes n self.program_id_offset id known

      with_program-Shaped : IsShaped mem vm sdk sizes n with_program
      with_program-Shaped =
          with_bytes-IsShaped mem laws vm sdk sizes n known known-Shaped self.program_id_offset id
            (omega (lengths, shaped.program_id_offset))

      with_instruction : InstructionExecutor mem vm
      with_instruction =
          with_bytes mem laws vm sdk sizes n self.instruction_offset (len_bytes ++ ix_data)
            with_program

      with_instruction-Shaped : IsShaped mem vm sdk sizes n with_instruction
      with_instruction-Shaped =
          with_bytes-IsShaped mem laws vm sdk sizes n with_program with_program-Shaped
            self.instruction_offset (len_bytes ++ ix_data)
            (omega (lengths, shaped.instruction_offset))

      rest : List ℕ
      rest = drop s (drop 8 old)

      length-rest : length rest ≡ 8 + n + 32
      length-rest = omega (arith, length-drop s (drop 8 old), length-drop 8 old, shaped.filled)

      written_parts :
          mem.as_slice with_instruction.buffer ≡ front ++ (mid ++ ((len_bytes ++ ix_data) ++ id))
      written_parts =
          as_slice-with_bytes mem laws vm sdk sizes n with_program with_program-Shaped
            self.instruction_offset (len_bytes ++ ix_data)
            (omega (lengths, shaped.instruction_offset))
          ∙ ap (splice self.instruction_offset (len_bytes ++ ix_data)) (
              as_slice-with_bytes mem laws vm sdk sizes n known known-Shaped self.program_id_offset
                id (omega (lengths, shaped.program_id_offset))
              ∙ ap (splice self.program_id_offset id) (four_parts s (8 + n) old))
          ∙ splice_parts self.instruction_offset self.program_id_offset (len_bytes ++ ix_data) id
              front mid (take (8 + n) rest) (drop (8 + n) rest)
              (omega (
                arith,
                length-take 8 old,
                length-take s (drop 8 old),
                length-drop 8 old,
                shaped.filled,
                shaped.instruction_offset,
              ))
              (omega (
                arith,
                shaped.instruction_offset,
                shaped.program_id_offset,
                length-take (8 + n) rest,
                length-rest,
              ))
              (omega (lengths, length-take (8 + n) rest, length-rest))
              (omega (lengths, length-drop (8 + n) rest, length-rest))

module _ (mem : AlignedMemory) (laws : IsAlignedMemory mem) (vm : Vm mem) (tame : IsTame vm)
    (sdk : Sdk) (xs : List Given) (ix_data : List ℕ) where
  -- Where the machine's calls return and runs keep the input's length, take an executor that calls
  -- make, whether they return or fail, of one whose buffer and offsets are those of `new` for spaces
  -- as long as the accounts' data and an instruction as long as the given one. Where the program loads
  -- and compiles, the calls of `run_ro` before a run return, and then the buffer has nothing of what
  -- was written into it before but its first eight bytes: behind them stand the slots of the given
  -- accounts, none executable, the instruction, and the program id.
  pub prepare-Reaches :
      {start self : InstructionExecutor mem vm} (program_id : ℕ) (program : Account)
      (loaded executable : vm.Executable)
      → IsShaped mem vm sdk (map data_len xs) (length ix_data) start
      → Reaches mem vm sdk start self
      → vm.from_elf program.data_bytes self.runtime ≡ ok loaded
      → compile mem vm sdk true loaded ≡ ok executable
      → (b : mem.Memory) × (prepare mem vm sdk program_id program ix_data xs self
          ≡ ok (
            tt,
            record self {
              executable = some executable;
              context = record (self.context) { program_id = program_id };
              buffer = b;
            },
          ))
        × (mem.as_slice b
            ≡ take 8 (mem.as_slice self.buffer)
              ++ (slots sdk (map data_len xs) (map placed xs)
                  ++ trailer sdk (record {
                    entries = map placed xs;
                    instruction = ix_data;
                    program_id = program_id;
                  })))
  prepare-Reaches {self = self} program_id program loaded executable shaped reached =
      prepare-Shaped mem laws vm sdk xs ix_data self
        (Reaches-IsShaped mem laws vm tame sdk (map data_len xs) (length ix_data) shaped reached)
        program_id program loaded executable
