-- ===== src/InstructionExecutor/Refinement/Update.antt =====
-- `update_account`, `update_instruction` and `update_program` change one part of the view.
use mathlib.Core.Path.{ap₂}
use solana_bpf_simulator.Prelude.{
  ℕ, ◌+◌, ◌-◌, ◌^◌, ◌≤◌, ◌<◌, ◌≡◌, refl, sym, ◌∙◌, Bool, some, List, ◌++◌, append_assoc, length,
  get_elem?, set, replicate, replicate-append, le→ltb, lt→ltb, arith, lengths,
}
use solana_bpf_simulator.Prelude.Slices.{splice}
use solana_bpf_simulator.Prelude.Outcome.{ok, err}
use solana_bpf_simulator.Prelude.Method.{◌>>=◌}
use solana_bpf_simulator.Memory.{AlignedMemory, IsAlignedMemory}
use solana_bpf_simulator.InstructionExecutor.Types.{Sdk, Account, invalid_account}
use solana_bpf_simulator.InstructionExecutor.Layout.{slot, slot_len, spare, length-slot}
use solana_bpf_simulator.InstructionExecutor.Buffer.{write_account}
use solana_bpf_simulator.InstructionExecutor.Buffer.Writes.{written, Fits, as_slice-written}
use solana_bpf_simulator.InstructionExecutor.Buffer.Slots.{write_account_lem}
use solana_bpf_simulator.InstructionExecutor.Vm.{Vm}
use solana_bpf_simulator.InstructionExecutor.Executor.{InstructionExecutor}
use solana_bpf_simulator.InstructionExecutor.Executor.Methods.{
  on_buffer, on_buffer_ok, update_account,
}
use solana_bpf_simulator.InstructionExecutor.View.{
  Entry, View, IsEntry, AreEntries, Represents, entry_slot, serialize, padded,
}
use solana_bpf_simulator.InstructionExecutor.Refinement.Buffer.{Represents-buffer, length-buffer}
use solana_bpf_simulator.InstructionExecutor.View.Slots.{
  before, entry_at, offset_at, before_bound, AreEntries-set,
}
use solana_bpf_simulator.InstructionExecutor.View.Serialize.{splice-slot}

-- What `update_account` puts in place of an account: zeros fill the space behind its data, and the
-- flag for executables is the argument's.
abbrev pub new_entry : ℕ → ℕ → Account → Bool → Bool → Bool → Entry
new_entry size key account is_signer is_writable is_executable = record {
  key = key;
  account = record (padded size account) { executable = is_executable };
  is_signer = is_signer;
  is_writable = is_writable;
}

module _ (sdk : Sdk) (size key : ℕ) (account : Account) (s w e : Bool) where
  pub slot-padded :
      length account.data_bytes ≤ size
      → slot sdk size key account s w e ≡ entry_slot sdk size (new_entry size key account s w e)
  unfolding slot
  slot-padded h =
      rw (sym (replicate-append {A = ℕ} gap (spare sdk size) 0), full) (simp append_assoc)
    where
      gap : ℕ
      gap = size - length account.data_bytes

      full : size - length (account.data_bytes ++ replicate gap 0) + spare sdk size ≡ spare sdk size
      full = omega lengths

module _ (mem : AlignedMemory) (laws : IsAlignedMemory mem) (vm : Vm mem) (sdk : Sdk)
    (sizes : List ℕ) (self : InstructionExecutor mem vm) (v : View)
    (r : Represents mem vm sdk sizes self v) where
  -- An account that does not fit is refused, and nothing changes.
  pub update_account_too_long :
      (i size key : ℕ) (account : Account) (s w e : Bool)
      → get_elem? sizes i ≡ some size
      → size < length account.data_bytes
      → update_account mem vm sdk i key account s w e self ≡ err (invalid_account, self)
  unfolding update_account
  update_account_too_long i size key account s w e at long =
      rw (r.sized.at i size at, lt→ltb size (length account.data_bytes) long) refl

  -- An account that fits replaces account `i` of the view, and only the buffer changes.
  pub update_account_lem :
      (i size key : ℕ) (account : Account) (s w e : Bool)
      → get_elem? sizes i ≡ some size
      → length account.data_bytes ≤ size
      → account.owner < 256 ^ 32
      → account.lamports < 256 ^ 8
      → account.rent_epoch < 256 ^ 8
      → (b : mem.Memory) × (update_account mem vm sdk i key account s w e self
          ≡ ok (tt, record self { buffer = b }))
        × Represents mem vm sdk sizes
            (record self { buffer = b })
            (record v { entries = set v.entries i (new_entry size key account s w e) })
  unfolding update_account
  update_account_lem i size key account s w e at short ho hl hr = (
    written mem self.buffer (some from) image,
    run,
    Represents-buffer mem vm sdk sizes self v r _ _ bytes entries r.instruction,
  )
    where
      from : ℕ
      from = 8 + length (before sdk sizes v.entries i)

      image : List ℕ
      image = slot sdk size key account s w e

      y : Entry
      y = new_entry size key account s w e

      hy : IsEntry size y
      hy = record { filled = omega lengths; owner = ho; lamports = hl; rent_epoch = hr }

      old : (x : Entry) × (get_elem? v.entries i ≡ some x) × IsEntry size x
      old = entry_at sdk sizes v.entries i size r.entries at

      size_of_image : length image ≡ slot_len sdk size
      size_of_image = length-slot sdk size key account s w e short

      place : from + slot_len sdk size ≤ length (mem.as_slice self.buffer)
      place = omega (
        arith,
        length-buffer mem vm sdk sizes self v r,
        before_bound sdk sizes v.entries i size r.entries at,
      )

      fits : Fits mem self.buffer (some from) (slot_len sdk size)
      fits = omega (arith, place, length-buffer mem vm sdk sizes self v r, r.small)

      found : get_elem? self.account_offsets i ≡ some from
      found = rw r.offsets (offset_at sdk sizes v.entries i size 8 r.entries at)

      wrote :
          on_buffer mem vm (λ b. write_account mem sdk b size (some from) key account s w e) self
          ≡ ok (
            from + length image,
            record self { buffer = written mem self.buffer (some from) image },
          )
      wrote = on_buffer_ok mem vm _ self _ _ (
          write_account_lem mem laws sdk self.buffer size key account s w e short
            (omega (arith, place, length-buffer mem vm sdk sizes self v r, r.small)) (some from)
            fits)

      run :
          update_account mem vm sdk i key account s w e self
          ≡ ok (tt, record self { buffer = written mem self.buffer (some from) image })
      run =
          rw
            (
              r.sized.at i size at,
              le→ltb size (length account.data_bytes) short,
              found,
              wrote,
              ◌>>=◌,
            )
            refl

      bytes :
          mem.as_slice (written mem self.buffer (some from) image)
          ≡ serialize sdk sizes (record v { entries = set v.entries i y })
      bytes =
          as_slice-written mem laws self.buffer from image (omega (arith, place, size_of_image))
          ∙ ap₂ (splice from) (slot-padded sdk size key account s w e short) r.bytes
          ∙ splice-slot sdk sizes v i size from old.0 y at old.1 old.2 hy refl

      entries : AreEntries sdk sizes (set v.entries i y)
      entries = AreEntries-set sdk sizes v.entries i size y r.entries at hy
