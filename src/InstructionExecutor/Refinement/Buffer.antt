-- ===== src/InstructionExecutor/Refinement/Buffer.antt =====
-- A new buffer in place of the old one, and the length of the buffer.
use solana_bpf_simulator.Prelude.{ℕ, ◌≡◌, ap, ◌∙◌, List, length}
use solana_bpf_simulator.Memory.{AlignedMemory}
use solana_bpf_simulator.InstructionExecutor.Types.{Sdk}
use solana_bpf_simulator.InstructionExecutor.Vm.{Vm}
use solana_bpf_simulator.InstructionExecutor.Executor.{InstructionExecutor}
use solana_bpf_simulator.InstructionExecutor.View.{
  View, AreEntries, Represents, serialize, buffer_len,
}
use solana_bpf_simulator.InstructionExecutor.View.Serialize.{length-serialize}

module _ (mem : AlignedMemory) (vm : Vm mem) (sdk : Sdk) (sizes : List ℕ)
    (self : InstructionExecutor mem vm) (v : View) (r : Represents mem vm sdk sizes self v) where
  pub Represents-buffer :
      (b : mem.Memory) (w : View)
      → mem.as_slice b ≡ serialize sdk sizes w
      → AreEntries sdk sizes w.entries
      → length w.instruction ≡ self.instruction_size
      → Represents mem vm sdk sizes (record self { buffer = b }) w
  Represents-buffer b w bytes entries count = record {
    sized = r.sized;
    entries = entries;
    instruction = count;
    small = r.small;
    bytes = bytes;
    offsets = r.offsets;
    instruction_offset = r.instruction_offset;
    program_id_offset = r.program_id_offset;
  }

  pub length-buffer : length (mem.as_slice self.buffer) ≡ buffer_len sdk sizes self.instruction_size
  length-buffer =
      ap length r.bytes
      ∙ length-serialize sdk sizes v r.entries
      ∙ ap (buffer_len sdk sizes) r.instruction
